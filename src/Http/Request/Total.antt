-- ===== src/Http/Request/Total.antt =====
-- The loop of parseHeaders of src/http/Http.cpp, and what it can return.
use coro_iomultiplex.Prelude.{
  ℕ, zero, suc, ◌+◌, ◌<◌, ◌≡◌, refl, ◌∙◌, Text, find, length, take, drop, none, some, arith,
  length-drop, Option-cases, inl, inr, value, unexpected,
}
use coro_iomultiplex.Http.Status.{Request, bad_request, make_error_code}
use coro_iomultiplex.Http.Request.{
  crlf, Parsed, accept, reject, header_line, header_loop, parse_headers,
}
use coro_iomultiplex.Http.Request.Lines.{find-le}

-- What a parser may leave: it accepts, with nothing but the headers changed since `r`, or it
-- refuses with BAD_REQUEST, in the status too.
pub data Verdict (r : Request) (p : Parsed) : Type 0 where
  accepts :
      p.result ≡ value tt
      → p.request.status ≡ r.status
      → p.request.version ≡ r.version
      → Verdict r p
  refuses :
      p.result ≡ unexpected (make_error_code bad_request)
      → p.request.status ≡ bad_request
      → Verdict r p

header_line-keeps :
    (r : Request) (line : Text) (r' : Request)
    → header_line r line ≡ some r'
    → (r'.status ≡ r.status) × (r'.version ≡ r.version)
unfolding header_line
header_line-keeps r line r' h = ground arith

module _ (fuel : ℕ) (r : Request) (view : Text) where
  pub header_loop_open :
      find crlf view ≡ none → header_loop (suc fuel) r view ≡ some (reject r view)
  unfolding header_loop
  header_loop_open e = rw (e, header_loop)

  pub header_loop_end :
      find crlf view ≡ some 0 → header_loop (suc fuel) r view ≡ some (accept r view)
  unfolding header_loop
  header_loop_end e = rw (e, header_loop)

  pub header_loop_bad :
      (p : ℕ)
      → find crlf view ≡ some (suc p)
      → header_line r (take (suc p) view) ≡ none
      → header_loop (suc fuel) r view ≡ some (reject r (drop (suc p + 2) view))
  unfolding header_loop
  header_loop_bad p e e' = rw (e, header_loop) (rw (e', header_loop))

  pub header_loop_next :
      (p : ℕ) (r' : Request)
      → find crlf view ≡ some (suc p)
      → header_line r (take (suc p) view) ≡ some r'
      → header_loop (suc fuel) r view ≡ header_loop fuel r' (drop (suc p + 2) view)
  unfolding header_loop
  header_loop_next p r' e e' = rw (e, header_loop) (rw (e', header_loop))

Verdict-line :
    (r r' : Request) (line : Text) (p : Parsed)
    → header_line r line ≡ some r'
    → Verdict r' p
    → Verdict r p
Verdict-line r r' line p e (accepts a b c) =
    let keeps = header_line-keeps r line r' e in accepts a (b ∙ keeps.0) (c ∙ keeps.1)
Verdict-line r r' line p e (refuses a b) = refuses a b

header_loop-total :
    (fuel : ℕ) (r : Request) (view : Text)
    → length view < fuel
    → (p : Parsed) × (header_loop fuel r view ≡ some p) × Verdict r p
header_loop-total zero r view h = elim h [ ]
header_loop-total (suc fuel) r view h = elim (Option-cases (find crlf view)) [
  | inl e ↦ (reject r view, header_loop_open fuel r view e, refuses refl refl)
  | inr (zero, e) ↦ (accept r view, header_loop_end fuel r view e, accepts refl refl refl)
  | inr (suc p, e) ↦ elim (Option-cases (header_line r (take (suc p) view))) [
    | inl e' ↦
        (reject r (drop (suc p + 2) view), header_loop_bad fuel r view p e e', refuses refl refl)
    | inr (r', e') ↦
        let short : length (drop (suc p + 2) view) < fuel =
          omega (arith, length-drop (suc p + 2) view, find-le crlf view (suc p) (omega arith) e) in
        let (q, run, verdict) = header_loop-total fuel r' (drop (suc p + 2) view) short in
        (
          q,
          header_loop_next fuel r view p r' e e' ∙ run,
          Verdict-line r r' (take (suc p) view) q e' verdict,
        )
  ]
]

-- parseHeaders returns on every input.
pub parse_headers-total :
    (r : Request) (view : Text) → (p : Parsed) × (parse_headers r view ≡ some p) × Verdict r p
unfolding parse_headers
parse_headers-total r view = header_loop-total (suc (length view)) r view (omega arith)
