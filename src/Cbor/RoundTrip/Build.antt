-- ===== src/Cbor/RoundTrip/Build.antt =====
-- The heap that `put_decoded_value` builds from the parts of an object.
use uvm.Base.{ℕ, zero, suc, ◌+◌, ◌≡◌, refl, sym, ap, ◌∙◌, arith, true, false, Option, some}
use uvm.Base.{List, [], ◌∷◌, ◌++◌, append_assoc, length, get_elem?, set, All, length-append}
use uvm.Base.{get_elem?-append_middle, set-append_middle}
use uvm.Cbor.Value.{Bytes, string, CborObject, scalar, array, map, Items, nil, cons, Entries, end}
use uvm.Cbor.Value.{entry, count_items, count_entries}
use uvm.Cbor.Builder.{Builder, Node, Ref, ok, put_decoded_value, attach, attach_to}
use uvm.Cbor.Builder.{insert_entry, key_lt, pop_full}
use uvm.Cbor.RoundTrip.Codable.{normal}

-- The nodes of an object, in the order in which they are made, from a position on.
abbrev mutual
  pub layout : CborObject → Ref → List Node
  layout (scalar s) n = Node.scalar (normal s) ∷ []
  layout (array xs) n = Node.array (count_items xs) (item_refs xs (suc n)) ∷ item_nodes xs (suc n)
  layout (map es) n = Node.map (count_entries es) (entry_refs es (suc n)) ∷ entry_nodes es (suc n)

  pub item_refs : Items → Ref → List Ref
  item_refs nil m = []
  item_refs (cons x xs) m = m ∷ item_refs xs (m + length (layout x m))

  pub item_nodes : Items → Ref → List Node
  item_nodes nil m = []
  item_nodes (cons x xs) m = layout x m ++ item_nodes xs (m + length (layout x m))

  pub entry_refs : Entries → Ref → List (Bytes × Ref)
  entry_refs end m = []
  entry_refs (entry k x es) m = (k, suc m) ∷ entry_refs es (suc m + length (layout x (suc m)))

  pub entry_nodes : Entries → Ref → List Node
  entry_nodes end m = []
  entry_nodes (entry k x es) m =
      Node.scalar (string k)
      ∷ (layout x (suc m) ++ entry_nodes es (suc m + length (layout x (suc m))))

-- A builder that is not between a key and its value.
abbrev pub between : List Node → Option Ref → List Ref → Option Ref → Builder
between h r st k = record {
  heap = h;
  result = r;
  structures_stack = st;
  iter_in_map_key = true;
  map_key_temp = k;
}

-- A container is on the stack while it expects more.
abbrev pub with_open : ℕ → Ref → List Ref → List Ref
with_open zero n st = st
with_open (suc more) n st = n ∷ st

pop_full-with_open :
    (held size more n : ℕ) (st : List Ref)
    → size ≡ held + more
    → pop_full held size n st ≡ with_open more n st
pop_full-with_open held size zero n st e = ground arith
pop_full-with_open held size (suc more) n st e = ground arith

-- The node of an open container, and what it is overwritten with, when one more node is made.
module _ (H L : List Node) (a a' x : Node) where
  get_open : get_elem? ((H ++ (a ∷ L)) ++ (x ∷ [])) (length H) ≡ some a
  get_open = rw append_assoc (get_elem?-append_middle H a (L ++ (x ∷ [])))

  set_open : set ((H ++ (a ∷ L)) ++ (x ∷ [])) (length H) a' ≡ (H ++ (a' ∷ L)) ++ (x ∷ [])
  set_open =
      ap (λ l. set l (length H) a') (append_assoc H (a ∷ L) (x ∷ []))
      ∙ set-append_middle H a a' (L ++ (x ∷ []))
      ∙ sym (append_assoc H (a' ∷ L) (x ∷ []))

-- The next item of an array enters it.
module _ (H : List Node) (L : List Node) (r : Option Ref) (st : List Ref) (k : Option Ref)
    (size : ℕ) where
  pub attach_item :
      (ids : List Ref) (more m : ℕ) (x : Node)
      → size ≡ suc (length ids) + more
      → m ≡ length (H ++ (Node.array size ids ∷ L))
      → attach (between (H ++ (Node.array size ids ∷ L)) r (length H ∷ st) k) x
        ≡ ok (
            between
              ((H ++ (Node.array size (ids ++ (m ∷ [])) ∷ L)) ++ (x ∷ []))
              r
              (with_open more (length H) st)
              k)
  unfolding attach attach_to
  attach_item ids more m x e em = ground (
    arith,
    get_open H L (Node.array size ids) (Node.array size ids) x,
    set_open H L (Node.array size ids) (Node.array size (ids ++ (m ∷ []))) x,
    pop_full-with_open (suc (length ids)) size more (length H) st e,
  )

-- A key that comes after all others enters at the end.
insert_entry-append :
    (k : Bytes) (v : Ref) (es : List (Bytes × Ref))
    → All (λ e. key_lt e.0 k ≡ true) es
    → insert_entry k v es ≡ es ++ ((k, v) ∷ [])
unfolding insert_entry
insert_entry-append k v [] h = refl
insert_entry-append k v (e ∷ es) h = ground (arith, insert_entry-append k v es h.1)

-- The next key of a map is kept, and then the value enters the map under it.
module _ (H : List Node) (L : List Node) (r : Option Ref) (st : List Ref) (k : Option Ref)
    (size : ℕ) where
  abbrev pub after_key : List (Bytes × Ref) → Bytes → Ref → Builder
  after_key es key m = record {
    heap = H ++ (Node.map size es ∷ (L ++ (Node.scalar (string key) ∷ [])));
    result = r;
    structures_stack = length H ∷ st;
    iter_in_map_key = false;
    map_key_temp = some m;
  }

  pub put_key :
      (es : List (Bytes × Ref)) (key : Bytes) (m : ℕ)
      → m ≡ length (H ++ (Node.map size es ∷ L))
      → put_decoded_value
          (between (H ++ (Node.map size es ∷ L)) r (length H ∷ st) k)
          (Node.scalar (string key))
        ≡ ok (after_key es key m)
  unfolding put_decoded_value
  put_key es key m em = ground (
    arith,
    get_open H L (Node.map size es) (Node.map size es) (Node.scalar (string key)),
    append_assoc H (Node.map size es ∷ L) (Node.scalar (string key) ∷ []),
  )

  pub attach_value :
      (es : List (Bytes × Ref)) (key : Bytes) (more m : ℕ) (x : Node)
      → All (λ e. key_lt e.0 key ≡ true) es
      → size ≡ suc (length es) + more
      → m ≡ length (H ++ (Node.map size es ∷ L))
      → attach (after_key es key m) x
        ≡ ok (
            between
              ((H
                  ++ (Node.map size (es ++ ((key, suc m) ∷ []))
                      ∷ (L ++ (Node.scalar (string key) ∷ []))))
                ++ (x ∷ []))
              r
              (with_open more (length H) st)
              (some m))
  unfolding attach attach_to
  attach_value es key more m x below e em =
      let keyed = Node.scalar (string key) in
      ground (
        arith,
        get_open H (L ++ (keyed ∷ [])) (Node.map size es) (Node.map size es) x,
        set_open H (L ++ (keyed ∷ [])) (Node.map size es)
            (Node.map size (es ++ ((key, suc m) ∷ []))) x,
        get_key,
        length_keyed,
        insert_entry-append key (suc m) es below,
        length-append es ((key, suc m) ∷ []),
        pop_full-with_open (suc (length es)) size more (length H) st e,
      )
    where
      length_keyed :
          length (H ++ (Node.map size es ∷ (L ++ (Node.scalar (string key) ∷ [])))) ≡ suc m
      length_keyed = simp length-append (omega (arith, rw length-append at em))

      get_key :
          get_elem?
            ((H ++ (Node.map size es ∷ (L ++ (Node.scalar (string key) ∷ [])))) ++ (x ∷ []))
            m
          ≡ some (Node.scalar (string key))
      get_key = rw em (
          let move : (H ++ (Node.map size es ∷ (L ++ (Node.scalar (string key) ∷ [])))) ++ (x ∷ [])
              ≡ (H ++ (Node.map size es ∷ L)) ++ (Node.scalar (string key) ∷ x ∷ []) =
            simp append_assoc in
          rw move (
            get_elem?-append_middle (H ++ (Node.map size es ∷ L)) (Node.scalar (string key))
              (x ∷ [])))
