-- ===== src/Http/Receive/Buffers.antt =====
-- What readRequest of src/http/Http.cpp keeps between its calls, and what it returns.
use coro_iomultiplex.Prelude.{
  ℕ, ◌≤◌, ◌<◌, ◌≡◌, ◌≢◌, refl, sym, ap, ◌∙◌, subst, Text, ends_with, length, length-append, List,
  [], ◌∷◌, ◌++◌, Option, none, some, true, false, ◌||◌, if◌then◌else◌, ℕ_discrete, store, forget,
  entry-forget_self, entry-forget_ne, entry-store_self, entry-store_ne, Expected, value, unexpected,
  ErrorCode, same_error, arith, Bool-cases, inl, inr,
}
use mathlib.Core.Option.{some-injective}
use coro_iomultiplex.Http.Status.{make_error_code, uncompleted_request}
use coro_iomultiplex.Http.Socket.{try_again, would_block, Answer, read}
use coro_iomultiplex.Http.Receive.{
  Buffers, blank_line, max_request, get_buffer, erase_buffer, read_more, Received, read_failed,
  read_loop, read_request,
}

-- No text that is kept is longer than a request may be.
unfoldable pub IsBounded : Buffers → Type 0
IsBounded b = (fd : ℕ) (s : Text) → b.entry fd ≡ some s → length s ≤ max_request

-- A call on `fd` that begins with `b`: a text is returned only whole, within the bound and with
-- its buffer erased; the other descriptors' buffers are untouched; the bound still holds.
pub record IsKept (b : Buffers) (fd : ℕ) (r : Received) : Type 0 where
  pub whole : (s : Text) → r.result ≡ value s → ends_with blank_line s ≡ true
  pub fits : (s : Text) → r.result ≡ value s → length s ≤ max_request
  pub erased : (s : Text) → r.result ≡ value s → r.buffers.entry fd ≡ none
  pub others : (q : ℕ) → q ≢ fd → r.buffers.entry q ≡ b.entry q
  pub bounded : IsBounded r.buffers

-- A read that is kept leaves a longer text, within the bound.
pub read_more-le :
    (message : Text) (r : Expected Text) (message' : Text)
    → read_more message r ≡ value message'
    → length message' ≤ max_request
unfolding read_more
read_more-le message (unexpected e) message' h = absurd (ground arith)
read_more-le message (value []) message' h = absurd (ground arith)
read_more-le message (value (c ∷ s)) message' h =
    ground (arith, length-append message (c ∷ s), ap length {x = message ++ (c ∷ s)} {y = message'})

pub read_more-lt :
    (message : Text) (r : Expected Text) (message' : Text)
    → read_more message r ≡ value message'
    → length message < length message'
unfolding read_more
read_more-lt message (unexpected e) message' h = absurd (ground arith)
read_more-lt message (value []) message' h = absurd (ground arith)
read_more-lt message (value (c ∷ s)) message' h =
    ground (arith, length-append message (c ∷ s), ap length {x = message ++ (c ∷ s)} {y = message'})

forget-IsBounded : (b : Buffers) (fd : ℕ) → IsBounded b → IsBounded (forget ℕ_discrete fd b)
unfolding IsBounded
forget-IsBounded b fd fits q s at = elim (ℕ_discrete q fd) [
  | yes e ↦ absurd (
      ground
        (arith, entry-forget_self ℕ_discrete fd b, ap (λ n. (forget ℕ_discrete fd b).entry n) e))
  | no ne ↦ fits q s (sym (entry-forget_ne ℕ_discrete fd q b ne) ∙ at)
]

store-IsBounded :
    (b : Buffers) (fd : ℕ) (s : Text)
    → length s ≤ max_request
    → IsBounded b
    → IsBounded (store ℕ_discrete fd s b)
unfolding IsBounded
store-IsBounded b fd s le fits q t at = elim (ℕ_discrete q fd) [
  | yes e ↦
      subst (λ u. length u ≤ max_request)
        (some-injective s t (
          sym (entry-store_self ℕ_discrete fd s b)
          ∙ ap (λ n. (store ℕ_discrete fd s b).entry n) (sym e)
          ∙ at))
        le
  | no ne ↦ fits q t (sym (entry-store_ne ℕ_discrete fd q s b ne) ∙ at)
]

value-injective : (s t : Text) → ◌≡◌ {A = Expected Text} (value s) (value t) → s ≡ t
value-injective s t h = ground arith

-- The two ways in which a call ends.
IsKept-erased :
    (b : Buffers) (fd : ℕ) (result : Expected Text)
    → IsBounded b
    → ((s : Text) → result ≡ value s → (ends_with blank_line s ≡ true) × (length s ≤ max_request))
    → IsKept b fd (record { buffers = forget ℕ_discrete fd b; result = result })
IsKept-erased b fd result fits good = record {
  whole = λ s h. (good s h).0;
  fits = λ s h. (good s h).1;
  erased = λ s h. entry-forget_self ℕ_discrete fd b;
  others = λ q ne. entry-forget_ne ℕ_discrete fd q b ne;
  bounded = forget-IsBounded b fd fits;
}

IsKept-open :
    (b : Buffers) (fd : ℕ) (e : ErrorCode)
    → IsBounded b
    → IsKept b fd (record { buffers = b; result = unexpected e })
IsKept-open b fd e fits = record {
  whole = λ s h. absurd (ground arith);
  fits = λ s h. absurd (ground arith);
  erased = λ s h. absurd (ground arith);
  others = λ q ne. refl;
  bounded = fits;
}

read_failed-IsKept :
    (b : Buffers) (fd : ℕ) (message : Text) (e : ErrorCode)
    → length message ≤ max_request
    → IsBounded b
    → IsKept b fd (read_failed b fd message e)
unfolding read_failed erase_buffer
read_failed-IsKept b fd message e le fits =
    elim (same_error e try_again || same_error e would_block)
      as (λ again. IsKept b fd (
        if again
        then (if ends_with blank_line message
            then record { buffers = forget ℕ_discrete fd b; result = value message }
            else record { buffers = b; result = unexpected (make_error_code uncompleted_request) })
        else record { buffers = forget ℕ_discrete fd b; result = unexpected e })) [
          | true ↦ elim (Bool-cases (ends_with blank_line message)) [
            | inl ends ↦
                subst
                  (λ c. IsKept b fd (
                    if c
                    then record { buffers = forget ℕ_discrete fd b; result = value message }
                    else record {
                      buffers = b;
                      result = unexpected (make_error_code uncompleted_request);
                    }))
                  (sym ends)
                  (IsKept-erased b fd (value message) fits (λ s h.
                    subst (λ t. (ends_with blank_line t ≡ true) × (length t ≤ max_request))
                      (value-injective message s h) (ends, le)))
            | inr ends ↦
                subst
                  (λ c. IsKept b fd (
                    if c
                    then record { buffers = forget ℕ_discrete fd b; result = value message }
                    else record {
                      buffers = b;
                      result = unexpected (make_error_code uncompleted_request);
                    }))
                  (sym ends) (IsKept-open b fd (make_error_code uncompleted_request) fits)
          ]
          | false ↦ IsKept-erased b fd (unexpected e) fits (λ s h. absurd (ground arith))
        ]

IsKept-after_store :
    (b : Buffers) (fd : ℕ) (s : Text) (r : Received)
    → IsKept (store ℕ_discrete fd s b) fd r
    → IsKept b fd r
IsKept-after_store b fd s r kept = record {
  whole = kept.whole;
  fits = kept.fits;
  erased = kept.erased;
  others = λ q ne. kept.others q ne ∙ entry-store_ne ℕ_discrete fd q s b ne;
  bounded = kept.bounded;
}

read_loop-IsKept :
    (fd : ℕ) (b : Buffers) (message : Text) (answers : List (Answer Text)) (r : Received)
    → length message ≤ max_request
    → IsBounded b
    → read_loop fd b message answers ≡ some r
    → IsKept b fd r
unfolding read_loop
read_loop-IsKept fd b message [] r le fits h = absurd (ground arith)
read_loop-IsKept fd b message (answer ∷ answers) r le fits h =
    let again = λ (message' : Text).
      read_loop-IsKept fd (store ℕ_discrete fd message' b) message' answers r in
    elim (read_more message (read (some fd) answer))
        as (λ m.
          ((message' : Text) → m ≡ value message' → length message' ≤ max_request)
          → ◌≡◌ {A = Option Received}
              (elim m [
                | unexpected e ↦ some (read_failed b fd message e)
                | value message' ↦ read_loop fd (store ℕ_discrete fd message' b) message' answers
              ])
              (some r)
          → IsKept b fd r) [
            | unexpected e ↦ λ bound k.
                subst (IsKept b fd) (some-injective (read_failed b fd message e) r k)
                  (read_failed-IsKept b fd message e le fits)
            | value message' ↦ λ bound k.
                let le' = bound message' refl in
                IsKept-after_store b fd message' r
                  (again message' le' (store-IsBounded b fd message' le' fits) k)
          ]
      (read_more-le message (read (some fd) answer)) h

-- A call of readRequest on `fd` that begins with bounded buffers: a text is returned only when it
-- ends with a blank line and is at most 4096 bytes long, its buffer is erased then, the other
-- descriptors' buffers are untouched, and the buffers are bounded again.
pub read_request-IsKept :
    (b : Buffers) (fd : ℕ) (answers : List (Answer Text)) (r : Received)
    → IsBounded b
    → read_request b fd answers ≡ some r
    → IsKept b fd r
unfolding read_request get_buffer IsBounded
read_request-IsKept b fd answers r fits h =
    elim (b.entry fd)
        as (λ o.
          b.entry fd ≡ o
          → ◌≡◌ {A = Option Received}
              (let (b', message) = (elim o as (λ x. Buffers × Text) [
                | some message ↦ (b, message)
                | none ↦ (store ℕ_discrete fd [] b, [])
              ]) in
                read_loop fd b' message answers)
              (some r)
          → IsKept b fd r) [
            | some message ↦
                λ e k. read_loop-IsKept fd b message answers r (fits fd message e) fits k
            | none ↦ λ e k. IsKept-after_store b fd [] r (
                read_loop-IsKept fd (store ℕ_discrete fd [] b) [] answers r (omega arith)
                  (store-IsBounded b fd [] (omega arith) fits) k)
          ]
      refl h
