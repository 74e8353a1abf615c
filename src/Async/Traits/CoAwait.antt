-- ===== src/Async/Traits/CoAwait.antt =====
-- AwaitableTraits of include/async/Traits.hpp against what the C++ language does with co_await.
use coro_iomultiplex.Prelude.{
  Bool, true, false, ◌&&◌, if◌then◌else◌, Option, none, some, ◌≡◌, refl, arith, Option-cases, inl,
  inr,
}
use coro_iomultiplex.Async.Traits.{
  Ty, void, bool, arithmetic, handle, non_void_helper, object, Classes, members, converts_to_bool,
  converts_to_handle, gives, awaiter, awaitable, ret_type,
}

-- The awaiter of an operand: what its operator co_await gives, or itself.
abbrev pub awaiter_of : Classes → Ty → Ty
awaiter_of classes t = elim (members classes t).co_await [ none ↦ t | some u ↦ u ]

-- await_ready is converted to bool by the context, also where the conversion is explicit.
abbrev pub tests_as_bool : Classes → Ty → Bool
tests_as_bool classes handle = true
tests_as_bool classes t = converts_to_bool classes t

-- await_suspend may give void, bool or a handle.
abbrev pub suspends : Ty → Bool
suspends void = true
suspends bool = true
suspends handle = true
suspends other = false

abbrev pub is_handle : Ty → Bool
is_handle handle = true
is_handle other = false

abbrev pub is_object : Ty → Bool
is_object (object c) = true
is_object other = false

-- The type of `co_await`; `none` where the language refuses it.
unfoldable pub co_await_type : Classes → Ty → Option Ty
co_await_type classes t =
    let a = members classes (awaiter_of classes t) in
    if gives (tests_as_bool classes) a.await_ready && gives suspends a.await_suspend
    then a.await_resume
    else none

-- The awaiter says by a handle what runs next.
unfoldable pub hands_over : Classes → Ty → Bool
hands_over classes t =
    let a = members classes (awaiter_of classes t) in
    gives (converts_to_bool classes) a.await_ready && gives is_handle a.await_suspend

-- No awaiter of the operand has an operator co_await too, or gives an object that converts to a handle.
pub record IsPlain (classes : Classes) (t : Ty) : Type 0 where
  pub one_way : awaiter classes t ≡ true → (members classes t).co_await ≡ none
  pub no_object : gives is_object (members classes (awaiter_of classes t)).await_suspend ≡ false

pub hands_over-handle :
    (classes : Classes) (t : Option Ty)
    → gives is_object t ≡ false
    → gives (converts_to_handle classes) t ≡ gives is_handle t
hands_over-handle classes none h = refl
hands_over-handle classes (some void) h = refl
hands_over-handle classes (some bool) h = refl
hands_over-handle classes (some arithmetic) h = refl
hands_over-handle classes (some handle) h = refl
hands_over-handle classes (some non_void_helper) h = refl
hands_over-handle classes (some (object c)) h = absurd (ground arith)

pub suspends-handle : (t : Option Ty) → gives is_handle t ≡ true → gives suspends t ≡ true
suspends-handle none h = absurd (ground arith)
suspends-handle (some void) h = refl
suspends-handle (some bool) h = refl
suspends-handle (some arithmetic) h = absurd (ground arith)
suspends-handle (some handle) h = refl
suspends-handle (some non_void_helper) h = absurd (ground arith)
suspends-handle (some (object c)) h = absurd (ground arith)

pub tests-converts :
    (classes : Classes) (t : Option Ty)
    → gives (converts_to_bool classes) t ≡ true
    → gives (tests_as_bool classes) t ≡ true
tests-converts classes none h = absurd (ground arith)
tests-converts classes (some void) h = h
tests-converts classes (some bool) h = h
tests-converts classes (some arithmetic) h = h
tests-converts classes (some handle) h = refl
tests-converts classes (some non_void_helper) h = h
tests-converts classes (some (object c)) h = h

-- The awaiter alone.
pub awaiter-resume :
    (classes : Classes) (t : Ty)
    → gives is_object (members classes t).await_suspend ≡ false
    → (if awaiter classes t then (members classes t).await_resume else none) ≡ (
        if gives (converts_to_bool classes) (members classes t).await_ready
          && gives is_handle (members classes t).await_suspend
        then (members classes t).await_resume
        else none)
unfolding awaiter
awaiter-resume classes t h =
    ground (arith, hands_over-handle classes (members classes t).await_suspend)

pub co_await-resume :
    (classes : Classes) (t : Ty)
    → (if gives (converts_to_bool classes) (members classes t).await_ready
          && gives is_handle (members classes t).await_suspend
        then (members classes t).await_resume
        else none)
      ≡ (if gives (converts_to_bool classes) (members classes t).await_ready
            && gives is_handle (members classes t).await_suspend
          then if gives (tests_as_bool classes) (members classes t).await_ready
              && gives suspends (members classes t).await_suspend
            then (members classes t).await_resume
            else none
          else none)
co_await-resume classes t = ground (
  arith,
  suspends-handle (members classes t).await_suspend,
  tests-converts classes (members classes t).await_ready,
)

-- The type that the trait gives is that of co_await in the language, as long as the awaiter says by a
-- handle what runs next; else there is none.
pub ret_type-co_await :
    (classes : Classes) (t : Ty)
    → IsPlain classes t
    → ret_type classes t ≡ (if hands_over classes t then co_await_type classes t else none)
unfolding ret_type awaitable hands_over co_await_type
ret_type-co_await classes t p = elim (Option-cases (members classes t).co_await) [
  | inl e ↦
      let plain : gives is_object (members classes t).await_suspend ≡ false =
        ground (arith, p.no_object) in
      ground (arith, awaiter-resume classes t plain, co_await-resume classes t)
  | inr (u, e) ↦
      let other : awaiter classes t ≡ false = ground (arith, p.one_way) in
      let plain : gives is_object (members classes u).await_suspend ≡ false =
        ground (arith, p.no_object) in
      ground (arith, awaiter-resume classes u plain, co_await-resume classes u)
]
