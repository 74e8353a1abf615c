-- ===== src/Async/Traits.antt =====
-- The concepts and type traits of include/async/Traits.hpp, and the types of whenAll in
-- include/async/WhenAll.hpp. A class is a number, and what its members give is an argument.
pub mod CoAwait
pub mod Language
pub mod Tests
use coro_iomultiplex.Prelude.{
  ℕ, Bool, true, false, ◌&&◌, ◌||◌, not, is_some, if◌then◌else◌, List, [], ◌∷◌, Option, none, some,
}

-- The types that the members of an awaitable give; `handle` is any std::coroutine_handle, and
-- `non_void_helper` is nonVoidHelper<void>.
pub data Ty : Type 0 where
  void bool arithmetic handle non_void_helper : Ty
  object : ℕ → Ty

-- A class: what its members return, if it has them, whether it converts, and whether it has a default
-- constructor, a move constructor and a move assignment.
pub record Class : Type 0 where
  pub await_ready : Option Ty
  pub await_suspend : Option Ty
  pub await_resume : Option Ty
  pub co_await : Option Ty
  pub to_bool : Bool
  pub to_handle : Bool
  pub default_constructible : Bool
  pub move_constructible : Bool
  pub move_assignable : Bool

abbrev pub Classes : Type 0
Classes = ℕ → Class

abbrev pub no_members : Class
no_members = record {
  await_ready = none;
  await_suspend = none;
  await_resume = none;
  co_await = none;
  to_bool = false;
  to_handle = false;
  default_constructible = true;
  move_constructible = true;
  move_assignable = true;
}

-- A type that is not a class has no members.
abbrev pub members : Classes → Ty → Class
members classes (object c) = classes c
members classes other = no_members

-- std::convertible_to<bool>; the operator bool of a handle is explicit.
abbrev pub converts_to_bool : Classes → Ty → Bool
converts_to_bool classes void = false
converts_to_bool classes bool = true
converts_to_bool classes arithmetic = true
converts_to_bool classes handle = false
converts_to_bool classes non_void_helper = false
converts_to_bool classes (object c) = (classes c).to_bool

-- std::convertible_to<std::coroutine_handle<>>.
abbrev pub converts_to_handle : Classes → Ty → Bool
converts_to_handle classes handle = true
converts_to_handle classes (object c) = (classes c).to_handle
converts_to_handle classes other = false

-- Whether a member is there and its type passes a test.
abbrev pub gives : (Ty → Bool) → Option Ty → Bool
gives test none = false
gives test (some t) = test t

-- The concept Awaiter.
unfoldable pub awaiter : Classes → Ty → Bool
awaiter classes t =
    gives (converts_to_bool classes) (members classes t).await_ready
    && (gives (converts_to_handle classes) (members classes t).await_suspend
        && is_some (members classes t).await_resume)

-- The concept Awaitable.
unfoldable pub awaitable : Classes → Ty → Bool
unfolding awaiter
awaitable classes t = awaiter classes t || gives (awaiter classes) (members classes t).co_await

-- AwaitableTraits<A>::retType; `none` where the constraints are not met.
unfoldable pub ret_type : Classes → Ty → Option Ty
unfolding awaiter awaitable
ret_type classes t =
    if awaiter classes t
    then (members classes t).await_resume
    else if awaitable classes t
    then elim (members classes t).co_await [
      | none ↦ none
      | some u ↦ (members classes u).await_resume
    ]
    else none

-- nonVoidHelper<T>::type.
abbrev pub non_void : Ty → Ty
non_void void = non_void_helper
non_void t = t

-- AwaitableTraits<A>::nonVoidRetType.
unfoldable pub non_void_ret_type : Classes → Ty → Option Ty
unfolding ret_type
non_void_ret_type classes t = elim (ret_type classes t) [ none ↦ none | some r ↦ some (non_void r) ]

-- Whether whenAll can hold a result of the type: its tuple is default-constructed, the result of
-- co_await is assigned into it, and the tuple is moved to the promise and out of it.
unfoldable pub can_hold : Classes → Ty → Bool
can_hold classes void = false
can_hold classes (object c) =
    (classes c).default_constructible
    && ((classes c).move_assignable && (classes c).move_constructible)
can_hold classes other = true

-- The type of the place of a task in the tuple of whenAll.
unfoldable pub place_type : Classes → Ty → Option Ty
unfolding non_void_ret_type can_hold
place_type classes t = elim (non_void_ret_type classes t) [
  | none ↦ none
  | some r ↦ if can_hold classes r then some r else none
]

-- The types in the tuple of whenAll; `none` where a task is not Awaitable, or its result cannot be
-- held.
unfoldable pub when_all_types : Classes → List Ty → Option (List Ty)
unfolding place_type
when_all_types classes [] = some []
when_all_types classes (t ∷ ts) = elim (place_type classes t) [
  | none ↦ none
  | some r ↦ elim (when_all_types classes ts) [ none ↦ none | some rs ↦ some (r ∷ rs) ]
]
