-- ===== src/TypedList.antt =====
-- utils_gen.go: the typed versions of container/list, which _tools/genlist.go writes for each type of
-- values, and the constructors of utils.go. The package container/list is a parameter.
pub mod Walk
use goen.Prelude.{ℕ, [], Option, none, some}
use goen.Go.Result.{Result, ok, panic, message}

-- The lists `L` and elements `E` of container/list are pointers into the heap `H`; the values are an
-- interface{}, `A`.
pub record LinkedLists (H L E A : Type 0) : Type 0 where
  pub new : H → H × L
  pub init : L → H → H
  pub len : L → H → ℕ
  pub front : L → H → Option E
  pub back : L → H → Option E
  pub insert_after : A → E → L → H → H × Option E
  pub insert_before : A → E → L → H → H × Option E
  pub move_after : E → E → L → H → H
  pub move_before : E → E → L → H → H
  pub move_to_back : E → L → H → H
  pub move_to_front : E → L → H → H
  pub push_back : A → L → H → H × Option E
  pub push_front : A → L → H → H × Option E
  pub push_back_list : L → L → H → H
  pub push_front_list : L → L → H → H
  pub remove : E → L → H → H × A
  pub next : E → H → Option E
  pub prev : E → H → Option E
  pub value : E → H → A
  pub set_value : E → A → H → H

-- A type of values as an interface{}, and the type assertion for it.
pub record Boxed (T A : Type 0) : Type 0 where
  pub box : T → A
  pub unbox : A → Option T

-- `PatchElement`
pub record ListElement (E : Type 0) : Type 0 where
  pub el : E

-- `wrapPatchElementOrNil`
unfoldable pub wrap_or_nil : {E : Type 0} → Option E → Option (ListElement E)
wrap_or_nil none = none
wrap_or_nil (some e) = some (record { el = e })

abbrev wrapped : {H E : Type 0} → H × Option E → H × Option (ListElement E)
wrapped (h, e) = (h, wrap_or_nil e)

abbrev pub asserted : {T : Type 0} → Option T → Result T
asserted (some v) = ok v
asserted none = panic (message "interface conversion: interface {}" [])

module _ {H L E A T : Type 0} (lists : LinkedLists H L E A) (boxed : Boxed T A) where
  -- `NewPatchList`
  unfoldable pub new_list : H → H × L
  new_list h = lists.new h

  unfoldable pub back : L → H → Option (ListElement E)
  unfolding wrap_or_nil
  back l h = wrap_or_nil (lists.back l h)

  unfoldable pub front : L → H → Option (ListElement E)
  unfolding wrap_or_nil
  front l h = wrap_or_nil (lists.front l h)

  unfoldable pub init : L → H → H
  init l h = lists.init l h

  unfoldable pub insert_after : T → ListElement E → L → H → H × Option (ListElement E)
  unfolding wrap_or_nil
  insert_after v mark l h = wrapped (lists.insert_after (boxed.box v) mark.el l h)

  unfoldable pub insert_before : T → ListElement E → L → H → H × Option (ListElement E)
  unfolding wrap_or_nil
  insert_before v mark l h = wrapped (lists.insert_before (boxed.box v) mark.el l h)

  unfoldable pub len : L → H → ℕ
  len l h = lists.len l h

  unfoldable pub move_after : ListElement E → ListElement E → L → H → H
  move_after e mark l h = lists.move_after e.el mark.el l h

  unfoldable pub move_before : ListElement E → ListElement E → L → H → H
  move_before e mark l h = lists.move_before e.el mark.el l h

  unfoldable pub move_to_back : ListElement E → L → H → H
  move_to_back e l h = lists.move_to_back e.el l h

  unfoldable pub move_to_front : ListElement E → L → H → H
  move_to_front e l h = lists.move_to_front e.el l h

  unfoldable pub push_back : T → L → H → H × Option (ListElement E)
  unfolding wrap_or_nil
  push_back v l h = wrapped (lists.push_back (boxed.box v) l h)

  unfoldable pub push_front : T → L → H → H × Option (ListElement E)
  unfolding wrap_or_nil
  push_front v l h = wrapped (lists.push_front (boxed.box v) l h)

  unfoldable pub push_back_list : L → L → H → H
  push_back_list other l h = lists.push_back_list other l h

  unfoldable pub push_front_list : L → L → H → H
  push_front_list other l h = lists.push_front_list other l h

  -- `ret0.(*Patch)`
  abbrev removed : H × A → H × Result T
  removed (h, a) = (h, asserted (boxed.unbox a))

  unfoldable pub remove : ListElement E → L → H → H × Result T
  remove e l h = removed (lists.remove e.el l h)

  unfoldable pub next : ListElement E → H → Option (ListElement E)
  unfolding wrap_or_nil
  next e h = wrap_or_nil (lists.next e.el h)

  unfoldable pub prev : ListElement E → H → Option (ListElement E)
  unfolding wrap_or_nil
  prev e h = wrap_or_nil (lists.prev e.el h)

  unfoldable pub get_value : ListElement E → H → Result T
  get_value e h = asserted (boxed.unbox (lists.value e.el h))

  unfoldable pub set_value : ListElement E → T → H → H
  set_value e v h = lists.set_value e.el (boxed.box v) h
