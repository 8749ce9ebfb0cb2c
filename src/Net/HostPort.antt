-- ===== src/Net/HostPort.antt =====
-- `split_host_port` accepts exactly the texts `host:port` and `[host]:port`.
use Prim.Native.String.{[], ◌∷◌, ◌++◌}
use mathlib.Core.Path.{subst}
use text.Mathlib.TextLemmas.{
  nil-append, cons-append, append_assoc, cons≢nil, append-ne-nil_of_right_ne-nil,
}
use text.Mathlib.TextEquality.{Char-path}
use cluster_api_control_plan.Prelude.{
  ℕ, String, Char, code, some, ◌≡◌, refl, ap, sym, ◌∙◌, arith, eqb, Option-cases, Bool-cases, inl,
  inr, ◌⊎◌, ◌↔◌,
}
use cluster_api_control_plan.Net.{
  contains, cut, cut_last, host_port, bracketed, plain, after_last_colon, split_host_port,
}
use cluster_api_control_plan.Net.Cuts.{
  Lacks, contains-append, cut-append, cut_last-append, IsCut, cut-IsCut, cut_last-IsCut,
}

abbrev pub IsUnbracketed : String → Type 0
IsUnbracketed s = Lacks b'[' s × Lacks b']' s

-- A port: no colon and no bracket.
abbrev pub IsPort : String → Type 0
IsPort s = Lacks b':' s × Lacks b'[' s × Lacks b']' s

-- `hostport` reads as `host` and `port`: with the host in brackets, or as it is if it has no colon.
abbrev pub Reads : String → String → String → Type 0
Reads hostport host port =
    IsPort port
    × IsUnbracketed host
    × ((hostport ≡ "[" ++ (host ++ ("]:" ++ port)))
        ⊎ (Lacks b':' host × (hostport ≡ host ++ (":" ++ port))))

abbrev pub colon : Char
colon = ":"

abbrev open_bracket : Char
open_bracket = "["

abbrev close_bracket : Char
close_bracket = "]"

pub colon_cons : (c : Char) (s : String) → code c ≡ b':' → ":" ++ s ≡ c ∷ s
colon_cons c s h =
    rw (Char-path c colon h) (cons-append colon [] s ∙ ap (λ t. colon ∷ t) (nil-append s))

open_cons : (c : Char) (s : String) → code c ≡ b'[' → "[" ++ s ≡ c ∷ s
open_cons c s h =
    rw (Char-path c open_bracket h)
      (cons-append open_bracket [] s ∙ ap (λ t. open_bracket ∷ t) (nil-append s))

close_cons : (c d : Char) (s : String) → code c ≡ b']' → code d ≡ b':' → "]:" ++ s ≡ c ∷ d ∷ s
close_cons c d s h k =
    rw (Char-path c close_bracket h)
      (cons-append close_bracket ":" s ∙ ap (λ t. close_bracket ∷ t) (colon_cons d s k))

-- What the last tests of the plain case establish.
plain-inv :
    (hostport host port h p : String)
    → plain hostport host port ≡ host_port h p
    → (host ≡ h) × (port ≡ p) × Lacks b':' host × Lacks b'[' hostport × Lacks b']' hostport
unfolding plain
plain-inv hostport host port h p e = ground arith

bracketed-inv :
    (s inner port h p : String) (c : Char)
    → bracketed s inner (c ∷ port) ≡ host_port h p
    → (inner ≡ h) × (port ≡ p) × (code c ≡ b':') × Lacks b':' port × Lacks b'[' s × Lacks b']' port
unfolding bracketed
bracketed-inv s inner port h p c e = ground arith

Lacks-append : (b : ℕ) (s t : String) → Lacks b (s ++ t) → Lacks b s × Lacks b t
Lacks-append b s t h = ground (arith, contains-append b s t)

bracketed-Reads :
    (c : Char) (s inner after h p : String)
    → code c ≡ b'['
    → IsCut b']' s inner after
    → Lacks b']' inner
    → bracketed s inner after ≡ host_port h p
    → Reads (c ∷ s) h p
bracketed-Reads c s inner [] h p opens is_cut lacks e = unfold bracketed in cc
bracketed-Reads c s inner (x ∷ q) h p opens is_cut lacks e =
    let (same_h, same_p, is_colon, no_colon, no_open, no_close) = bracketed-inv s inner q h p x e in
    let (no_open_inner, no_open_rest) =
      Lacks-append b'[' inner _ (subst (λ t. Lacks b'[' t) is_cut.joined no_open) in
    let no_open_q : Lacks b'[' q = unfold contains in ground arith in
    rw (← same_h, ← same_p)
      (
        (no_colon, no_open_q, no_close),
        (no_open_inner, lacks),
        inl (
            rw (close_cons is_cut.separator x q is_cut.is_b is_colon, open_cons c _ opens)
              (ap (λ t. c ∷ t) is_cut.joined)),
      )

plain-Reads :
    (hostport host port h p : String)
    → IsCut b':' hostport host port
    → Lacks b':' port
    → plain hostport host port ≡ host_port h p
    → Reads hostport h p
plain-Reads hostport host port h p is_cut no_colon e =
    let (same_h, same_p, no_colon_host, no_open, no_close) = plain-inv hostport host port h p e in
    let (open_host, open_rest) =
      Lacks-append b'[' host _ (subst (λ t. Lacks b'[' t) is_cut.joined no_open) in
    let (close_host, close_rest) =
      Lacks-append b']' host _ (subst (λ t. Lacks b']' t) is_cut.joined no_close) in
    rw (← same_h, ← same_p)
      (
        (no_colon, unfold contains in ground arith, unfold contains in ground arith),
        (open_host, close_host),
        inr (no_colon_host, rw (colon_cons is_cut.separator port is_cut.is_b) is_cut.joined),
      )

split_host_port-Reads :
    (hostport h p : String) → split_host_port hostport ≡ host_port h p → Reads hostport h p
unfolding split_host_port
split_host_port-Reads [] h p e = unfold cut_last in cc
split_host_port-Reads (c ∷ s) h p e = elim (Option-cases (cut_last b':' (c ∷ s))) [
  | inl missed ↦ absurd (ground arith)
  | inr (part, found) ↦
      let (host, port) = part in
      let (is_cut, no_colon) = cut_last-IsCut b':' (c ∷ s) host port found in
      elim (Bool-cases (eqb (code c) b'[')) [
        | inl opens ↦ elim (Option-cases (cut b']' s)) [
          | inl missed ↦ absurd (ground arith)
          | inr (ends, closed) ↦
              let (inner, after) = ends in
              let (is_closed, lacks) = cut-IsCut b']' s inner after closed in
              bracketed-Reads c s inner after h p (ground arith) is_closed lacks (ground arith)
        ]
        | inr other ↦ plain-Reads (c ∷ s) host port h p is_cut no_colon (ground arith)
      ]
]

bracketed_text :
    (host port : String)
    → "[" ++ (host ++ ("]:" ++ port)) ≡ open_bracket ∷ (host ++ close_bracket ∷ colon ∷ port)
bracketed_text host port =
    rw (close_cons close_bracket colon port refl refl) (open_cons open_bracket _ refl)

single_append : (c : Char) (s : String) → (c ∷ []) ++ s ≡ c ∷ s
single_append c s = cons-append c [] s ∙ ap (λ t. c ∷ t) (nil-append s)

last_colon_bracketed :
    (host port : String)
    → Lacks b':' port
    → cut_last b':' (open_bracket ∷ (host ++ close_bracket ∷ colon ∷ port))
      ≡ some (open_bracket ∷ (host ++ close_bracket ∷ []), port)
last_colon_bracketed host port h =
    let regroup : open_bracket ∷ (host ++ close_bracket ∷ colon ∷ port)
        ≡ (open_bracket ∷ (host ++ close_bracket ∷ [])) ++ colon ∷ port =
      simp (cons-append, append_assoc, single_append close_bracket) in
    rw regroup
      (cut_last-append b':' colon refl (open_bracket ∷ (host ++ close_bracket ∷ [])) port h)

split_bracketed :
    (host port : String)
    → IsPort port
    → IsUnbracketed host
    → split_host_port (open_bracket ∷ (host ++ close_bracket ∷ colon ∷ port)) ≡ host_port host port
unfolding split_host_port contains
split_bracketed host port (no_colon, no_open, no_close) (open_host, close_host) = ground (
  arith,
  last_colon_bracketed host port no_colon,
  cut-append b']' close_bracket refl host (colon ∷ port) close_host,
  contains-append b'[' host (close_bracket ∷ colon ∷ port),
)

after_plain :
    (hostport host port : String)
    → Lacks b'[' hostport
    → Lacks b']' hostport
    → Lacks b':' host
    → IsCut b':' hostport host port
    → after_last_colon hostport host port ≡ host_port host port
unfolding after_last_colon contains
after_plain [] host port no_open no_close no_colon is_cut =
    absurd (append-ne-nil_of_right_ne-nil host (λ e. cons≢nil e) (sym is_cut.joined))
after_plain (c ∷ s) host port no_open no_close no_colon is_cut = ground arith

split_plain :
    (host port : String)
    → IsPort port
    → IsUnbracketed host
    → Lacks b':' host
    → split_host_port (host ++ colon ∷ port) ≡ host_port host port
unfolding split_host_port contains
split_plain host port (no_colon, no_open, no_close) (open_host, close_host) no_colon_host =
    rw (cut_last-append b':' colon refl host port no_colon, split_host_port)
      (after_plain (host ++ colon ∷ port) host port
        (ground (arith, contains-append b'[' host (colon ∷ port)))
        (ground (arith, contains-append b']' host (colon ∷ port))) no_colon_host
        (record { separator = colon; is_b = refl; joined = refl }))

-- `split_host_port` returns a host and a port exactly when the text is the host, a colon and the
-- port, or the host in brackets, a colon and the port; neither part holds a bracket, the port holds
-- no colon, and the host holds one only if it is in brackets.
pub split_host_port_iff :
    (hostport host port : String)
    → (split_host_port hostport ≡ host_port host port) ↔ Reads hostport host port
split_host_port_iff hostport host port =
    (split_host_port-Reads hostport host port, λ reads. accepted reads.0 reads.1 reads.2)
  where
    accepted :
        IsPort port
        → IsUnbracketed host
        → ((hostport ≡ "[" ++ (host ++ ("]:" ++ port)))
            ⊎ (Lacks b':' host × (hostport ≡ host ++ (":" ++ port))))
        → split_host_port hostport ≡ host_port host port
    accepted is_port is_host (inl e) =
        rw (e, bracketed_text host port) (split_bracketed host port is_port is_host)
    accepted is_port is_host (inr (no_colon, e)) =
        rw (e, colon_cons colon port refl) (split_plain host port is_port is_host no_colon)
