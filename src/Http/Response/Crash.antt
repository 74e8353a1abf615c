-- ===== src/Http/Response/Crash.antt =====
-- Targets with arguments in the httpResponse constructor of src/http/Http.cpp.
use coro_iomultiplex.Prelude.{
  ℕ, zero, suc, ◌≡◌, ◌≢◌, refl, sym, ap, ◌∙◌, subst, Text, TextMap, codes, ends_with, drop, length,
  All, All-append, List, [], ◌∷◌, ◌++◌, none, some, false, arith, Bool-cases, inl, inr, text_eq_iff,
  take-append, drop-append, ends_with-drop, length-append,
}
use mathlib.Core.List.{append_assoc}
use coro_iomultiplex.Http.Status.{ok, Request}
use coro_iomultiplex.Http.Request.Lines.{Lacks, find-byte-append}
use coro_iomultiplex.Http.Paths.{
  pieces, first_piece, later_pieces, filename, extension, name_extension, find_last, has_dot_dot,
  dot_dot,
}
use coro_iomultiplex.Http.Response.{
  Response, out_of_range, respond, respond_path, respond_file, respond_type, without_args,
  with_index,
}
use coro_iomultiplex.Http.Response.Confined.{start}

first_piece-whole : (s : Text) → Lacks 47 s → first_piece s ≡ s
unfolding first_piece
first_piece-whole [] h = refl
first_piece-whole (c ∷ s) h = ground (arith, first_piece-whole s h.1)

later_pieces-whole : (s : Text) → Lacks 47 s → later_pieces s ≡ []
unfolding later_pieces
later_pieces-whole [] h = refl
later_pieces-whole (c ∷ s) h = ground (arith, later_pieces-whole s h.1)

-- A name below the root directory.
pieces-name : (s : Text) → Lacks 47 s → pieces (47 ∷ s) ≡ [] ∷ s ∷ []
unfolding first_piece later_pieces
pieces-name s h = rw (first_piece-whole s h, later_pieces-whole s h)

filename-name : (s : Text) → Lacks 47 s → filename (47 ∷ s) ≡ s
unfolding first_piece later_pieces
filename-name s h = rw (first_piece-whole s h, later_pieces-whole s h)

find_last-none : (c : ℕ) (s : Text) → Lacks c s → find_last c s ≡ none
unfolding find_last
find_last-none c [] h = refl
find_last-none c (a ∷ s) h = ground (arith, find_last-none c s h.1)

find_last-append : (c : ℕ) (s t : Text) → Lacks c t → find_last c (s ++ (c ∷ t)) ≡ some (length s)
unfolding find_last
find_last-append c [] t h = ground (arith, find_last-none c t h)
find_last-append c (a ∷ s) t h = ground (arith, find_last-append c s t h)

-- A text with a question mark is another than `..`.
question-ne : (s t : Text) → s ++ (63 ∷ t) ≢ dot_dot
question-ne [] t e = ground arith
question-ne (a ∷ []) t e = ground arith
question-ne (a ∷ b ∷ []) t e = ground arith
question-ne (a ∷ b ∷ c ∷ s) t e = ground arith

name_extension-none : (s : Text) → Lacks 46 s → name_extension s ≡ []
unfolding name_extension
name_extension-none s h = ground (arith, find_last-none 46 s h)

-- `name?.ext`, as the constructor first sees it.
abbrev pub tail : Text → Text → Text
tail name ext = name ++ (63 ∷ 46 ∷ ext)

name_extension-tail : (name ext : Text) → Lacks 46 ext → name_extension (tail name ext) ≡ 46 ∷ ext
unfolding name_extension
name_extension-tail name ext h = ground (
  arith,
  found,
  drop-append 1 name (63 ∷ 46 ∷ ext),
  text_eq_iff (tail name ext) dot_dot,
  question-ne name (46 ∷ ext),
)
  where
    found : find_last 46 (tail name ext) ≡ some (suc (length name))
    found =
        ap (find_last 46) (sym (append_assoc name (63 ∷ []) (46 ∷ ext)))
        ∙ find_last-append 46 (name ++ (63 ∷ [])) ext h
        ∙ ap some (omega (arith, length-append name (63 ∷ [])))

All-drop {ℓ κ} : {A : Type ℓ} (P : A → Type κ) (n : ℕ) (xs : List A) → All P xs → All P (drop n xs)
All-drop P zero xs h = h
All-drop P (suc n) [] h = tt
All-drop P (suc n) (x ∷ xs) h = All-drop P n xs h.1

ends_with-slash : (c : ℕ) (s : Text) → Lacks 47 (c ∷ s) → ends_with (codes "/") (47 ∷ c ∷ s) ≡ false
ends_with-slash c s h = elim (Bool-cases (ends_with (codes "/") (47 ∷ c ∷ s))) [
  | inr e ↦ e
  | inl e ↦
      let last : drop (length s) (c ∷ s) ≡ 47 ∷ [] =
        subst (λ n. drop n (47 ∷ c ∷ s) ≡ 47 ∷ []) {y = suc (length s)} (omega arith)
          (ends_with-drop (codes "/") (47 ∷ c ∷ s) e) in
      absurd ((subst (Lacks 47) last (All-drop _ (length s) (c ∷ s) h)).0 refl)
]

-- A name that has none of `.`, `/` and `?`.
pub record IsName (s : Text) : Type 0 where
  pub given : s ≢ []
  pub no_slash : Lacks 47 s
  pub no_dot : Lacks 46 s
  pub no_question : Lacks 63 s

tail-Lacks : (name ext : Text) → Lacks 47 name → Lacks 47 ext → Lacks 47 (tail name ext)
tail-Lacks name ext h k = All-append _ name (63 ∷ 46 ∷ ext) h (omega arith, (omega arith, k))

with_index-tail :
    (name ext : Text)
    → IsName name
    → Lacks 47 ext
    → with_index (47 ∷ tail name ext) ≡ 47 ∷ tail name ext
unfolding with_index
with_index-tail [] ext h k = absurd (h.given refl)
with_index-tail (c ∷ name) ext h k =
    ground
      (arith, ends_with-slash c (name ++ (63 ∷ 46 ∷ ext)) (tail-Lacks (c ∷ name) ext h.no_slash k))

without_args-tail : (name ext : Text) → IsName name → without_args (47 ∷ tail name ext) ≡ 47 ∷ name
unfolding without_args
without_args-tail name ext h = ground (
  arith,
  find-byte-append 63 (47 ∷ name) (46 ∷ ext) (omega arith, h.no_question),
  take-append (47 ∷ name) (63 ∷ 46 ∷ ext),
)

has_dot_dot-tail :
    (name ext : Text)
    → IsName name
    → Lacks 47 ext
    → has_dot_dot (pieces (47 ∷ tail name ext)) ≡ false
unfolding has_dot_dot
has_dot_dot-tail name ext h k =
    ap has_dot_dot (pieces-name (tail name ext) (tail-Lacks name ext h.no_slash k))
    ∙ (ground (
      arith,
      question-ne name (46 ∷ ext),
      text_eq_iff (tail name ext) dot_dot,
      text_eq_iff [] dot_dot,
    ))

extension-tail :
    (name ext : Text)
    → IsName name
    → Lacks 47 ext
    → Lacks 46 ext
    → extension (47 ∷ tail name ext) ≡ 46 ∷ ext
extension-tail name ext h k d =
    ap name_extension (filename-name (tail name ext) (tail-Lacks name ext h.no_slash k))
    ∙ name_extension-tail name ext d

extension-name : (name : Text) → IsName name → extension (47 ∷ name) ≡ []
extension-name name h =
    ap name_extension (filename-name name h.no_slash) ∙ name_extension-none name h.no_dot

respond_path-throws :
    (q : TextMap) (root : Text) (r : Response) (name ext : Text)
    → r.uri ≡ 47 ∷ tail name ext
    → IsName name
    → Lacks 47 ext
    → Lacks 46 ext
    → respond_path q root r ≡ out_of_range
unfolding respond_path respond_file respond_type
respond_path-throws q root r name ext e h k d = ground (arith, clean, seen, left')
  where
    clean : has_dot_dot (pieces r.uri) ≡ false
    clean = ap (λ u. has_dot_dot (pieces u)) e ∙ has_dot_dot-tail name ext h k

    whole : with_index r.uri ≡ 47 ∷ tail name ext
    whole = ap with_index e ∙ with_index-tail name ext h k

    seen : extension (with_index r.uri) ≡ 46 ∷ ext
    seen = ap extension whole ∙ extension-tail name ext h k d

    left' : extension (without_args (with_index r.uri)) ≡ []
    left' =
        ap (λ u. extension (without_args u)) whole
        ∙ ap extension (without_args-tail name ext h)
        ∙ extension-name name h

-- A request for `/name?.ext`, where the name has no dot, gets no response: the dot behind the `?`
-- passes the test for an extension, the arguments are cut off, and the constructor asks for the
-- text behind the dot of an empty extension, which throws.
pub respond-throws :
    (request : Request) (root name ext : Text)
    → request.status ≡ ok
    → request.uri ≡ 47 ∷ tail name ext
    → IsName name
    → Lacks 47 ext
    → Lacks 46 ext
    → respond request root ≡ out_of_range
unfolding respond
respond-throws request root name ext s e h k d =
    ground (arith, respond_path-throws request.headers root (start request) name ext e h k d)
