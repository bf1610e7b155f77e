-- ===== src/Cbor/RoundTrip/Heap.antt =====
-- The nodes of an object spell its normal form.
use uvm.Base.{ℕ, zero, suc, ◌+◌, ◌≤◌, ◌<◌, ◌≡◌, refl, sym, arith, Option, some}
use uvm.Base.{
  List, [], ◌∷◌, ◌++◌, append-nil, append_assoc, length, length-append, get_elem?,
  get_elem?-append_middle,
}
use mathlib.Core.Path.{subst}
use uvm.Cbor.Value.{Bytes, string, CborObject, scalar, array, map, Items, nil, cons, Entries, end}
use uvm.Cbor.Value.{entry, count_items, count_entries}
use uvm.Cbor.Builder.{Node, Ref}
use uvm.Cbor.Codec.{items_at, entries_at, object_of, object_at}
use uvm.Cbor.RoundTrip.Codable.{normal}
use uvm.Cbor.RoundTrip.Build.{layout, item_refs, item_nodes, entry_refs, entry_nodes}

-- The object that comes back: all its scalars in normal form.
abbrev mutual
  pub normal_object : CborObject → CborObject
  normal_object (scalar s) = scalar (normal s)
  normal_object (array xs) = array (normal_items xs)
  normal_object (map es) = map (normal_entries es)

  pub normal_items : Items → Items
  normal_items nil = nil
  normal_items (cons x xs) = cons (normal_object x) (normal_items xs)

  pub normal_entries : Entries → Entries
  normal_entries end = end
  normal_entries (entry k x es) = entry k (normal_object x) (normal_entries es)

-- The first node of a part of the heap.
node_here :
    (P S : List Node) (n : Node) (L : List Node) (m : ℕ)
    → m ≡ length P
    → get_elem? (P ++ ((n ∷ L) ++ S)) m ≡ some n
node_here P S n L m e = rw e (get_elem?-append_middle P n (L ++ S))

-- A part of the heap, past its first piece.
module _ (P A B S : List Node) where
  past : P ++ ((A ++ B) ++ S) ≡ (P ++ A) ++ (B ++ S)
  past = simp append_assoc

  length-past : (m : ℕ) → m ≡ length P → m + length A ≡ length (P ++ A)
  length-past m e = omega (arith, length-append P A)

layout_pos : (v : CborObject) (n : ℕ) → 0 < length (layout v n)
layout_pos (scalar s) n = omega arith
layout_pos (array xs) n = omega arith
layout_pos (map es) n = omega arith

pred_of : (d : ℕ) → 0 < d → (k : ℕ) × (d ≡ suc k)
pred_of zero h = absurd (omega arith)
pred_of (suc k) h = (k, refl)

-- One step of reading, from what the pointers spell.
module _ (get : Ref → Option CborObject) where
  object_of_array :
      (n : ℕ) (rs : List Ref) (xs : Items)
      → items_at get rs ≡ some xs
      → object_of get (some (Node.array n rs)) ≡ some (array xs)
  unfolding object_of
  object_of_array n rs xs e = ground (arith, e)

  object_of_map :
      (n : ℕ) (rs : List (Bytes × Ref)) (es : Entries)
      → entries_at get rs ≡ some es
      → object_of get (some (Node.map n rs)) ≡ some (map es)
  unfolding object_of
  object_of_map n rs es e = ground (arith, e)

  items_at_cons :
      (r : Ref) (rs : List Ref) (x : CborObject) (xs : Items)
      → get r ≡ some x
      → items_at get rs ≡ some xs
      → items_at get (r ∷ rs) ≡ some (cons x xs)
  unfolding items_at
  items_at_cons r rs x xs e f = ground (arith, e, f)

  entries_at_entry :
      (k : Bytes) (r : Ref) (rs : List (Bytes × Ref)) (x : CborObject) (es : Entries)
      → get r ≡ some x
      → entries_at get rs ≡ some es
      → entries_at get ((k, r) ∷ rs) ≡ some (entry k x es)
  unfolding entries_at
  entries_at_entry k r rs x es e f = ground (arith, e, f)

mutual
  unfolding object_at items_at entries_at

  object_at-layout :
      (v : CborObject) (P S : List Node) (n depth : ℕ)
      → n ≡ length P
      → length (layout v n) ≤ suc depth
      → object_at (suc depth) (P ++ (layout v n ++ S)) n ≡ some (normal_object v)
  object_at-layout (scalar s) P S n depth e h = rw (node_here P S (Node.scalar (normal s)) [] n e)
  object_at-layout (array xs) P S n depth e h =
      let rs = item_refs xs (suc n) in
      let a = Node.array (count_items xs) rs in
      let B = item_nodes xs (suc n) in
      let ih =
        items_at-layout xs (P ++ (a ∷ [])) S (suc n) depth
          (omega (arith, length-append P (a ∷ []), e)) (omega arith) in
      rw (node_here P S a B n e) (
        object_of_array (object_at depth (P ++ (((a ∷ []) ++ B) ++ S))) (count_items xs) rs
          (normal_items xs)
          (subst (λ l. items_at (object_at depth l) rs ≡ some (normal_items xs))
            (sym (past P (a ∷ []) B S)) ih))
  object_at-layout (map es) P S n depth e h =
      let rs = entry_refs es (suc n) in
      let a = Node.map (count_entries es) rs in
      let B = entry_nodes es (suc n) in
      let ih =
        entries_at-layout es (P ++ (a ∷ [])) S (suc n) depth
          (omega (arith, length-append P (a ∷ []), e)) (omega arith) in
      rw (node_here P S a B n e) (
        object_of_map (object_at depth (P ++ (((a ∷ []) ++ B) ++ S))) (count_entries es) rs
          (normal_entries es)
          (subst (λ l. entries_at (object_at depth l) rs ≡ some (normal_entries es))
            (sym (past P (a ∷ []) B S)) ih))

  items_at-layout :
      (xs : Items) (P S : List Node) (m depth : ℕ)
      → m ≡ length P
      → length (item_nodes xs m) ≤ depth
      → items_at (object_at depth (P ++ (item_nodes xs m ++ S))) (item_refs xs m)
        ≡ some (normal_items xs)
  items_at-layout nil P S m depth e h = refl
  items_at-layout (cons x xs) P S m depth e h =
      let A = layout x m in
      let m1 = m + length A in
      let B = item_nodes xs m1 in
      let sizes : length A + length B ≤ depth = omega (arith, length-append A B) in
      let (d, q) = pred_of depth (omega (arith, layout_pos x m)) in
      let first = object_at-layout x P (B ++ S) m d e (omega arith) in
      let rest = items_at-layout xs (P ++ A) S m1 (suc d) (length-past P A B S m e) (omega arith) in
      rw q (
        items_at_cons (object_at (suc d) (P ++ ((A ++ B) ++ S))) m (item_refs xs m1)
          (normal_object x) (normal_items xs) (rw (append_assoc A B S) first)
          (subst (λ l. items_at (object_at (suc d) l) (item_refs xs m1) ≡ some (normal_items xs))
            (sym (past P A B S)) rest))

  entries_at-layout :
      (es : Entries) (P S : List Node) (m depth : ℕ)
      → m ≡ length P
      → length (entry_nodes es m) ≤ depth
      → entries_at (object_at depth (P ++ (entry_nodes es m ++ S))) (entry_refs es m)
        ≡ some (normal_entries es)
  entries_at-layout end P S m depth e h = refl
  entries_at-layout (entry k x es) P S m depth e h =
      let key : List Node = Node.scalar (string k) ∷ [] in
      let A = layout x (suc m) in
      let m1 = suc m + length A in
      let B = entry_nodes es m1 in
      let sizes : length A + length B < depth = omega (arith, length-append A B) in
      let (d, q) = pred_of depth (omega arith) in
      let em : suc m ≡ length (P ++ key) = omega (arith, length-append P key, e) in
      let first = object_at-layout x (P ++ key) (B ++ S) (suc m) d em (omega arith) in
      let rest =
        entries_at-layout es ((P ++ key) ++ A) S m1 (suc d)
          (length-past (P ++ key) A B S (suc m) em) (omega arith) in
      rw q (
        rw (past P key (A ++ B) S) (
          entries_at_entry (object_at (suc d) ((P ++ key) ++ ((A ++ B) ++ S))) k (suc m)
            (entry_refs es m1) (normal_object x) (normal_entries es) (rw (append_assoc A B S) first)
            (subst
              (λ l. entries_at (object_at (suc d) l) (entry_refs es m1) ≡ some (normal_entries es))
              (sym (past (P ++ key) A B S)) rest)))

-- The heap of an object alone spells it.
pub object_at-layout_alone :
    (v : CborObject) → object_at (length (layout v 0)) (layout v 0) 0 ≡ some (normal_object v)
object_at-layout_alone v =
    let (d, q) = pred_of (length (layout v 0)) (layout_pos v 0) in
    let whole = object_at-layout v [] [] 0 d refl (omega (arith, q)) in
    let same : layout v 0 ++ [] ≡ layout v 0 = append-nil (layout v 0) in
    rw q (subst (λ h. object_at (suc d) h 0 ≡ some (normal_object v)) same whole)
