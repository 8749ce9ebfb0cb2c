-- ===== src/Net/Cuts.antt =====
-- What `contains`, `cut` and `cut_last` say of a text that is put together from parts.
use Prim.Native.String.{[], ◌∷◌, ◌++◌}
use text.Mathlib.TextLemmas.{nil-append, cons-append}
use cluster_api_control_plan.Prelude.{
  ℕ, String, Char, code, false, ◌||◌, none, some, ◌≡◌, refl, ap, arith, eqb, some_pair_inj,
  Option-cases, Bool-cases, inl, inr,
}
use cluster_api_control_plan.Net.{contains, cut, cut_last}

abbrev pub Lacks : ℕ → String → Type 0
Lacks b s = contains b s ≡ false

pub contains-append : (b : ℕ) (s t : String) → contains b (s ++ t) ≡ (contains b s || contains b t)
unfolding contains
contains-append b [] t = rw nil-append
contains-append b (c ∷ s) t = rw cons-append (ground (arith, contains-append b s t))

module _ (b : ℕ) (c : Char) (is_b : code c ≡ b) where
  pub cut-append : (s t : String) → Lacks b s → cut b (s ++ c ∷ t) ≡ some (s, t)
  unfolding cut contains
  cut-append [] t h = rw nil-append (ground arith)
  cut-append (d ∷ s) t h = rw cons-append (ground (arith, cut-append s t))

  cut_last-none : (t : String) → Lacks b t → cut_last b t ≡ none
  unfolding cut_last contains
  cut_last-none [] h = refl
  cut_last-none (d ∷ t) h = ground (arith, cut_last-none t)

  pub cut_last-append : (s t : String) → Lacks b t → cut_last b (s ++ c ∷ t) ≡ some (s, t)
  unfolding cut_last
  cut_last-append [] t h = rw nil-append (ground (arith, cut_last-none t h))
  cut_last-append (d ∷ s) t h = rw cons-append (ground (arith, cut_last-append s t h))

pub Lacks-of_cut_last-none : (b : ℕ) (s : String) → cut_last b s ≡ none → Lacks b s
unfolding cut_last contains
Lacks-of_cut_last-none b [] h = refl
Lacks-of_cut_last-none b (c ∷ s) h = ground (arith, Lacks-of_cut_last-none b s)

-- The parts of a cut, with the separator between them, are the text.
pub record IsCut (b : ℕ) (s before after : String) : Type 0 where
  pub separator : Char
  pub is_b : code separator ≡ b
  pub joined : s ≡ before ++ separator ∷ after

cons-IsCut :
    {b : ℕ} {s before after : String} (c : Char)
    → IsCut b s before after
    → IsCut b (c ∷ s) (c ∷ before) after
cons-IsCut c h = record {
  separator = h.separator;
  is_b = h.is_b;
  joined = rw cons-append (ap (λ t. c ∷ t) h.joined);
}

nil-IsCut : {b : ℕ} (c : Char) (s : String) → code c ≡ b → IsCut b (c ∷ s) [] s
nil-IsCut c s h = record { separator = c; is_b = h; joined = rw nil-append }

pub cut-IsCut :
    (b : ℕ) (s before after : String)
    → cut b s ≡ some (before, after)
    → IsCut b s before after × Lacks b before
unfolding cut contains
cut-IsCut b [] before after h = cc
cut-IsCut b (c ∷ s) before after h = elim (Bool-cases (eqb (code c) b)) [
  | inl same ↦
      let (no_head, rest) = some_pair_inj [] before s after (ground arith) in
      rw (← no_head, ← rest) (nil-IsCut c s (ground arith), refl)
  | inr other ↦ elim (Option-cases (cut b s)) [
    | inl missed ↦ absurd (ground arith)
    | inr (part, found) ↦
        let (x, y) = part in
        let (head, rest) = some_pair_inj (c ∷ x) before y after (ground arith) in
        let (is_cut, lacks) = cut-IsCut b s x y found in
        rw (← head, ← rest) (cons-IsCut c is_cut, ground arith)
  ]
]

pub cut_last-IsCut :
    (b : ℕ) (s before after : String)
    → cut_last b s ≡ some (before, after)
    → IsCut b s before after × Lacks b after
unfolding cut_last contains
cut_last-IsCut b [] before after h = cc
cut_last-IsCut b (c ∷ s) before after h = elim (Option-cases (cut_last b s)) [
  | inl missed ↦
      let (no_head, rest) = some_pair_inj [] before s after (ground arith) in
      rw (← no_head, ← rest) (nil-IsCut c s (ground arith), Lacks-of_cut_last-none b s missed)
  | inr (part, found) ↦
      let (x, y) = part in
      let (head, rest) = some_pair_inj (c ∷ x) before y after (ground arith) in
      let (is_cut, lacks) = cut_last-IsCut b s x y found in
      rw (← head, ← rest) (cons-IsCut c is_cut, lacks)
]
