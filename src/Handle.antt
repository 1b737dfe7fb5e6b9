-- ===== src/Handle.antt =====
-- include/rapid/core/unique_handle.h and file_desc.h: a value that its owner frees.
-- A call of Traits::free_resource puts the value on the list of freed ones, newest first.
pub mod Owning
pub mod Ledger
pub mod Order
use mathlib.Core.Logic.{ite}
use librapid.Prelude.{ℤ, minus_one, Bool, true, false, List, ◌∷◌, ℕ_discrete}

pub record UniqueHandle (T : Type 0) : Type 0 where
  pub value : T

abbrev pub handle : {T : Type 0} → T → UniqueHandle T
handle v = record { value = v }

module _ {T : Type 0} (same : Discrete T) (invalid : T) where
  -- unique_handle::close leaves value_ as it is.
  unfoldable pub close : UniqueHandle T → List T → List T
  close h freed = ite (same h.value invalid) freed (h.value ∷ freed)

  -- ~unique_handle
  unfoldable pub destroy : UniqueHandle T → List T → List T
  unfolding close
  destroy h freed = close h freed

  unfoldable pub reset : UniqueHandle T → T → List T → UniqueHandle T × List T
  unfolding close
  reset h v freed = ite (same h.value v) (h, freed) (handle v, close h freed)

  unfoldable pub release : UniqueHandle T → UniqueHandle T × T
  release h = (handle invalid, h.value)

  -- unique_handle(unique_handle &&other): the new object, and what is left of other.
  unfoldable pub move_construct : UniqueHandle T → UniqueHandle T × UniqueHandle T
  unfolding release
  move_construct other = let (other', v) = release other in (handle v, other')

  -- operator=(unique_handle &&other) where other is another object.
  unfoldable pub move_assign :
      UniqueHandle T → UniqueHandle T → List T → UniqueHandle T × UniqueHandle T × List T
  unfolding release reset
  move_assign h other freed =
      let (other', v) = release other in let (h', freed') = reset h v freed in (h', other', freed')

  -- The same where other is *this.
  unfoldable pub self_assign : UniqueHandle T → List T → UniqueHandle T × List T
  unfolding release reset
  self_assign h freed = let (h', v) = release h in reset h' v freed

  -- operator boolean_type
  unfoldable pub is_valid : UniqueHandle T → Bool
  is_valid h = ite (same invalid h.value) false true

pub ℤ-discrete : Discrete ℤ
ℤ-discrete = hlevel ℕ_discrete

abbrev pub FileDesc : Type 0
FileDesc = UniqueHandle ℤ

-- FileDescriptorTraits::invalid
abbrev pub invalid_fd : ℤ
invalid_fd = minus_one
