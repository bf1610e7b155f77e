-- ===== src/Cbor/RoundTrip/Whole.antt =====
-- An object's parts, one after the other, make its nodes and fill its containers.
use uvm.Base.{ℕ, zero, suc, ◌+◌, ◌≡◌, refl, sym, ◌∙◌, arith, true, Option, none, some}
use uvm.Base.{⊤, List, [], ◌∷◌, ◌++◌, append-nil, append_assoc, length, All, length-append}
use mathlib.Core.Path.{subst, subst₂}
use uvm.Cbor.Value.{Bytes, string, CborObject, scalar, array, map, Items, nil, cons, Entries, end}
use uvm.Cbor.Value.{entry, count_items, count_entries}
use uvm.Cbor.Builder.{Builder, Node, Ref, ok, put_decoded_value, attach, key_lt}
use uvm.Cbor.Builder.{empty_builder}
use uvm.Cbor.RoundTrip.Codable.{KeysAfter}
use uvm.Cbor.RoundTrip.Objects.{first_node, Absorbs, AbsorbsItems, AbsorbsEntries}
use uvm.Cbor.RoundTrip.Build.{layout, item_refs, item_nodes, entry_refs, entry_nodes, between}
use uvm.Cbor.RoundTrip.Build.{with_open, attach_item, after_key, put_key, attach_value}

-- Every map in an object has its keys in order.
abbrev mutual
  pub IsOrdered : CborObject → Type 0
  IsOrdered (scalar s) = ⊤
  IsOrdered (array xs) = AreOrdered xs
  IsOrdered (map es) = AreOrderedEntries es

  pub AreOrdered : Items → Type 0
  AreOrdered nil = ⊤
  AreOrdered (cons x xs) = IsOrdered x × AreOrdered xs

  pub AreOrderedEntries : Entries → Type 0
  AreOrderedEntries end = ⊤
  AreOrderedEntries (entry k x es) = KeysAfter k es × IsOrdered x × AreOrderedEntries es

-- The entries of a node come before those that are still to be put.
abbrev AreBefore : List (Bytes × Ref) → Entries → Type 0
AreBefore ids es = All (λ e. KeysAfter e.0 es) ids

-- A container that expects more comes on the stack.
put_array :
    (size n : ℕ) (b : Builder) (h : List Node) (r : Option Ref) (st : List Ref) (k : Option Ref)
    → length b.heap ≡ n
    → attach b (Node.array size []) ≡ ok (between h r st k)
    → put_decoded_value b (Node.array size []) ≡ ok (between h r (with_open size n st) k)
unfolding put_decoded_value
put_array zero n b h r st k e p = rw p (ground arith)
put_array (suc size) n b h r st k e p = rw p (ground arith)

put_map :
    (size n : ℕ) (b : Builder) (h : List Node) (r : Option Ref) (st : List Ref) (k : Option Ref)
    → length b.heap ≡ n
    → attach b (Node.map size []) ≡ ok (between h r st k)
    → put_decoded_value b (Node.map size []) ≡ ok (between h r (with_open size n st) k)
unfolding put_decoded_value
put_map zero n b h r st k e p = rw p (ground arith)
put_map (suc size) n b h r st k e p = rw p (ground arith)

-- Positions behind a container in the heap.
module _ (H L : List Node) (a a' : Node) (m : ℕ) (e : m ≡ length (H ++ (a ∷ L))) where
  length_other : length (H ++ (a' ∷ L)) ≡ m
  length_other = simp length-append (omega (arith, rw length-append at e))

  length_next : (K : List Node) → m + length K ≡ length (H ++ (a' ∷ (L ++ K)))
  length_next K = simp length-append (omega (arith, rw length-append at e))

  heap_next :
      (x : CborObject)
      → (H ++ (a' ∷ L)) ++ layout x (length (H ++ (a' ∷ L))) ≡ H ++ (a' ∷ (L ++ layout x m))
  heap_next x = rw length_other (append_assoc H (a' ∷ L) (layout x m))

past_key :
    (L : List Node) (n : Node) (K N : List Node) → ((L ++ (n ∷ [])) ++ K) ++ N ≡ L ++ (n ∷ (K ++ N))
past_key L n K N = simp append_assoc

-- One more entry is before what the rest must come after.
before-append :
    (es : List (Bytes × Ref)) (key : Bytes) (v : Ref) (rest : Entries)
    → AreBefore es rest
    → KeysAfter key rest
    → AreBefore (es ++ ((key, v) ∷ [])) rest
before-append [] key v rest h k = (k, tt)
before-append (e ∷ es) key v rest h k = (h.0, before-append es key v rest h.1 k)

before_first :
    (es : List (Bytes × Ref)) (key : Bytes) (x : CborObject) (rest : Entries)
    → AreBefore es (entry key x rest)
    → All (λ e. key_lt e.0 key ≡ true) es × AreBefore es rest
before_first [] key x rest h = (tt, tt)
before_first (e ∷ es) key x rest h =
    let (a, b) = before_first es key x rest h.1 in ((h.0.0, a), (h.0.1, b))

mutual
  unfolding put_decoded_value count_items count_entries

  build :
      (v : CborObject) (b : Builder) (H : List Node) (r : Option Ref) (st : List Ref)
      (k : Option Ref)
      → IsOrdered v
      → length b.heap ≡ length H
      → attach b (first_node v) ≡ ok (between (H ++ (first_node v ∷ [])) r st k)
      → (k' : Option Ref) × Absorbs v b (between (H ++ layout v (length H)) r st k')
  build (scalar s) b H r st k o e p = (k, rw p refl)
  build (array xs) b H r st k o e p =
      let first = put_array (count_items xs) (length H) b _ r st k e p in
      let (k', rest) =
        build_items xs H [] [] (count_items xs) (suc (length H)) r st k o (omega arith)
          (rw length-append (omega arith)) in
      (k', (_, first, rest))
  build (map es) b H r st k o e p =
      let first = put_map (count_entries es) (length H) b _ r st k e p in
      let (k', rest) =
        build_entries es H [] [] (count_entries es) (suc (length H)) r st k o tt (omega arith)
          (rw length-append (omega arith)) in
      (k', (_, first, rest))

  build_items :
      (xs : Items) (H L : List Node) (ids : List Ref) (size m : ℕ) (r : Option Ref) (st : List Ref)
      (k : Option Ref)
      → AreOrdered xs
      → size ≡ length ids + count_items xs
      → m ≡ length (H ++ (Node.array size ids ∷ L))
      → (k' : Option Ref) × AbsorbsItems xs
          (between (H ++ (Node.array size ids ∷ L)) r (with_open (count_items xs) (length H) st) k)
          (between
            (H ++ (Node.array size (ids ++ item_refs xs m) ∷ (L ++ item_nodes xs m)))
            r
            st
            k')
  build_items nil H L ids size m r st k o e em = (k, simp append-nil refl)
  build_items (cons x xs) H L ids size m r st k o e em =
      let A = Node.array size ids in
      let A' = Node.array size (ids ++ (m ∷ [])) in
      let b0 = between (H ++ (A ∷ L)) r (length H ∷ st) k in
      let st1 = with_open (count_items xs) (length H) st in
      let K = layout x m in
      let m1 = m + length K in
      let p = attach_item H L r st k size ids (count_items xs) m (first_node x) (omega arith) em in
      let (k1, first) =
        build x b0 (H ++ (A' ∷ L)) r st1 k o.0 (sym em ∙ sym (length_other H L A A' m em)) p in
      let (k2, rest) =
        build_items xs H (L ++ K) (ids ++ (m ∷ [])) size m1 r st k1 o.1
          (omega (arith, length-append ids (m ∷ []))) (length_next H L A A' m em K) in
      (
        k2,
        (
          between (H ++ (A' ∷ (L ++ K))) r st1 k1,
          subst (λ h. Absorbs x b0 (between h r st1 k1)) (heap_next H L A A' m em x) first,
          subst₂
              (λ l h.
                AbsorbsItems xs (between (H ++ (A' ∷ (L ++ K))) r st1 k1)
                  (between (H ++ (Node.array size l ∷ h)) r st k2))
              (append_assoc ids (m ∷ []) (item_refs xs m1)) (append_assoc L K (item_nodes xs m1))
              rest,
        ),
      )

  build_entries :
      (es : Entries) (H L : List Node) (ids : List (Bytes × Ref)) (size m : ℕ) (r : Option Ref)
      (st : List Ref) (k : Option Ref)
      → AreOrderedEntries es
      → AreBefore ids es
      → size ≡ length ids + count_entries es
      → m ≡ length (H ++ (Node.map size ids ∷ L))
      → (k' : Option Ref) × AbsorbsEntries es
          (between (H ++ (Node.map size ids ∷ L)) r (with_open (count_entries es) (length H) st) k)
          (between
            (H ++ (Node.map size (ids ++ entry_refs es m) ∷ (L ++ entry_nodes es m)))
            r
            st
            k')
  build_entries end H L ids size m r st k o a e em = (k, simp append-nil refl)
  build_entries (entry key x es) H L ids size m r st k o a e em =
      let keyed = Node.scalar (string key) in
      let A = Node.map size ids in
      let A' = Node.map size (ids ++ ((key, suc m) ∷ [])) in
      let Lk = L ++ (keyed ∷ []) in
      let b1 = after_key H L r st k size ids key m in
      let st1 = with_open (count_entries es) (length H) st in
      let K = layout x (suc m) in
      let m2 = suc m + length K in
      let em1 : suc m ≡ length (H ++ (A ∷ Lk)) =
        omega (arith, length_next H L A A m em (keyed ∷ [])) in
      let (below, before) = before_first ids key x es a in
      let p =
        attach_value H L r st k size ids key (count_entries es) m (first_node x) below (omega arith)
          em in
      let (k1, first) =
        build x b1 (H ++ (A' ∷ Lk)) r st1 (some m) o.1
          (sym em1 ∙ sym (length_other H Lk A A' (suc m) em1)) p in
      let (k2, rest) =
        build_entries es H (Lk ++ K) (ids ++ ((key, suc m) ∷ [])) size m2 r st k1 o.2
          (before-append ids key (suc m) es before o.0)
          (omega (arith, length-append ids ((key, suc m) ∷ [])))
          (length_next H Lk A A' (suc m) em1 K) in
      (
        k2,
        (
          b1,
          between (H ++ (A' ∷ (Lk ++ K))) r st1 k1,
          put_key H L r st k size ids key m em,
          subst (λ h. Absorbs x b1 (between h r st1 k1)) (heap_next H Lk A A' (suc m) em1 x) first,
          subst₂
              (λ l h.
                AbsorbsEntries es (between (H ++ (A' ∷ (Lk ++ K))) r st1 k1)
                  (between (H ++ (Node.map size l ∷ h)) r st k2))
              (append_assoc ids ((key, suc m) ∷ []) (entry_refs es m2))
              (past_key L keyed K (entry_nodes es m2)) rest,
        ),
      )

-- On an empty builder, an object's parts make its nodes, and the object is the result.
pub build_first :
    (v : CborObject)
    → IsOrdered v
    → (k : Option Ref) × Absorbs v empty_builder (between (layout v 0) (some 0) [] k)
unfolding attach empty_builder
build_first v o = build v empty_builder [] (some 0) [] none o refl refl
