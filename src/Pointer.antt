-- ===== src/Pointer.antt =====
-- app/utils/helper.py, PointerIterator for dicts: a path of keys into nested dicts.
mod Laws
mod Tests
use notifyr.Base.{
  String, Bool, true, false, not, if◌then◌else◌, Option, none, some, List, [], ◌∷◌, str_eq,
}

mutual
  pub data Node (A : Type 0) : Type 0 where
    leaf : A → Node A
    dict : Entries A → Node A

  pub data Entries (A : Type 0) : Type 0 where
    no_more : Entries A
    entry : String → Node A → Entries A → Entries A

module _ {A : Type 0} where
  -- d.get(k), d[k] = v and d.pop(k, None)
  unfoldable pub get_entry : String → Entries A → Option (Node A)
  get_entry k no_more = none
  get_entry k (entry j v es) = if str_eq j k then some v else get_entry k es

  unfoldable pub set_entry : String → Node A → Entries A → Entries A
  set_entry k v no_more = entry k v no_more
  set_entry k v (entry j w es) = if str_eq j k then entry j v es else entry j w (set_entry k v es)

  unfoldable pub pop_entry : String → Entries A → Entries A
  pop_entry k no_more = no_more
  pop_entry k (entry j w es) = if str_eq j k then pop_entry k es else entry j w (pop_entry k es)

  -- One step of PointerIterator.ptr: the dict under the next key, where it stops if there is none.
  unfoldable pub next_ptr : String → Entries A → Option (Entries A)
  next_ptr k es = elim (get_entry k es) [
    | none ↦ none
    | some node ↦ elim node [ leaf _ ↦ none | dict inside ↦ some inside ]
  ]

  -- PointerIterator.ptr with get_val, which is none where the key is missing, set_val and del_val of
  -- the pointer. The path is ptr_iterator without its last key, data_key.
  unfoldable pub get_val : List String → String → Entries A → Option (Node A)
  get_val [] data_key es = get_entry data_key es
  get_val (k ∷ ks) data_key es = elim (next_ptr k es) [
    | none ↦ get_entry data_key es
    | some inside ↦ get_val ks data_key inside
  ]

  unfoldable pub set_val : List String → String → Node A → Entries A → Entries A
  set_val [] data_key v es = set_entry data_key v es
  set_val (k ∷ ks) data_key v es = elim (next_ptr k es) [
    | none ↦ set_entry data_key v es
    | some inside ↦ set_entry k (dict (set_val ks data_key v inside)) es
  ]

  unfoldable pub del_val : List String → String → Entries A → Entries A
  del_val [] data_key es = pop_entry data_key es
  del_val (k ∷ ks) data_key es = elim (next_ptr k es) [
    | none ↦ pop_entry data_key es
    | some inside ↦ set_entry k (dict (del_val ks data_key inside)) es
  ]
