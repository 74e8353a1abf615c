-- ===== src/Http/Request/Accepted.antt =====
-- The header lines that parseHeaders of src/http/Http.cpp accepts.
use coro_iomultiplex.Prelude.{
  ℕ, zero, suc, ◌+◌, ◌<◌, ◌≡◌, ◌≢◌, refl, sym, ap, ◌∙◌, Text, codes, find, length, take, drop, All,
  List, [], ◌∷◌, ◌++◌, some, arith, emplace, Option-cases, Bool-cases, inl, inr, value, text_eq,
  text_eq_iff,
}
use mathlib.Core.List.{append_assoc}
use coro_iomultiplex.Http.Status.{Request, Method, name_of, table_at, method_strings}
use coro_iomultiplex.Http.Request.{crlf, Parsed, accept, header_line, header_loop}
use coro_iomultiplex.Http.Request.Lines.{find-split, find-le}
use coro_iomultiplex.Http.Request.Total.{
  header_loop_end, header_loop_next, header_loop_open, header_loop_bad,
}
use coro_iomultiplex.Http.Request.Headers.{header_text, headers_text, add_headers}

-- What the parser itself makes sure of in a header.
abbrev pub IsGiven : Text × Text → Type 0
IsGiven h = (h.0 ≢ []) × (h.1 ≢ [])

pub take-suc-ne : (n : ℕ) (s : Text) → n < length s → take (suc n) s ≢ []
take-suc-ne n [] h e = elim h [ ]
take-suc-ne n (c ∷ s) h e = cc

pub header_line-cut :
    (r : Request) (line : Text) (r' : Request) (p : ℕ) (rest : Text)
    → find (codes ":") line ≡ some (suc p)
    → drop (suc p + 1) line ≡ rest
    → header_line r line ≡ some r'
    → (h : Text × Text) × (line ≡ header_text h)
      × IsGiven h
      × (r' ≡ record r { headers = emplace h.0 h.1 r.headers })
unfolding header_line
header_line-cut r line r' p [] f g e = absurd (ground arith)
header_line-cut r line r' p (c ∷ cs) f g e = (
  (take (suc p) line, c ∷ cs),
  find-split (codes ":") line (suc p) f
      ∙ append_assoc (take (suc p) line) (codes ":") (drop (suc p + 1) line)
      ∙ ap (λ x. take (suc p) line ++ (58 ∷ x)) g,
  (take-suc-ne p line (omega (arith, find-le (codes ":") line (suc p) (omega arith) f)), λ k. cc),
  ground arith,
)

pub header_line_sound :
    (r : Request) (line : Text) (r' : Request)
    → header_line r line ≡ some r'
    → (h : Text × Text) × (line ≡ header_text h)
      × IsGiven h
      × (r' ≡ record r { headers = emplace h.0 h.1 r.headers })
unfolding header_line
header_line_sound r line r' e = elim (Option-cases (find (codes ":") line)) [
  | inl f ↦ absurd (ground arith)
  | inr (zero, f) ↦ absurd (ground arith)
  | inr (suc p, f) ↦ header_line-cut r line r' p (drop (suc p + 1) line) f refl e
]

pub header_loop_sound :
    (fuel : ℕ) (r : Request) (view : Text) (p : Parsed)
    → header_loop fuel r view ≡ some p
    → p.result ≡ value tt
    → (hs : List (Text × Text)) × (rest : Text) × All IsGiven hs
      × (view ≡ headers_text hs ++ (crlf ++ rest))
      × (p ≡ accept (record r { headers = add_headers hs r.headers }) (crlf ++ rest))
header_loop_sound zero r view p run ok' = absurd (unfold header_loop in cc)
header_loop_sound (suc fuel) r view p run ok' = elim (Option-cases (find crlf view)) [
  | inl e ↦ absurd (ground (arith, header_loop_open fuel r view e))
  | inr (zero, e) ↦
      let cut : view ≡ crlf ++ drop 2 view = find-split crlf view 0 e in
      ([], drop 2 view, tt, cut, cc (header_loop_end fuel r view e, cut))
  | inr (suc n, e) ↦ elim (Option-cases (header_line r (take (suc n) view))) [
    | inl e' ↦ absurd (ground (arith, header_loop_bad fuel r view n e e'))
    | inr (r', e') ↦
        let (h, eh, given, er) = header_line_sound r (take (suc n) view) r' e' in
        let (hs, rest, all, ev, ep) =
          header_loop_sound fuel r' (drop (suc n + 2) view) p
            (sym (header_loop_next fuel r view n r' e e') ∙ run) ok' in
        (
          h ∷ hs,
          rest,
          (given, all),
          find-split crlf view (suc n) e
              ∙ append_assoc (take (suc n) view) crlf (drop (suc n + 2) view)
              ∙ ap (λ x. x ++ (crlf ++ drop (suc n + 2) view)) eh
              ∙ ap (λ x. header_text h ++ (crlf ++ x)) ev
              ∙ sym (append_assoc (header_text h) (crlf ++ headers_text hs) (crlf ++ rest)),
          ep
              ∙ ap
                  (λ (x : Request).
                    accept (record x { headers = add_headers hs x.headers }) (crlf ++ rest))
                  er,
        )
  ]
]

pub table_at-name : (t : Text) (m : Method) → table_at t method_strings ≡ some m → t ≡ name_of m
unfolding table_at
table_at-name t m e = elim (Bool-cases (text_eq t (codes "GET"))) [
  | inl g ↦ (text_eq_iff t (codes "GET")).0 g ∙ ground arith
  | inr g ↦ elim (Bool-cases (text_eq t (codes "HEAD"))) [
    | inl h ↦ (text_eq_iff t (codes "HEAD")).0 h ∙ ground arith
    | inr h ↦ absurd (ground arith)
  ]
]
