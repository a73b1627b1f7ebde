-- ===== src/IndexedHeap/Push.antt =====
-- `push_reserved` and `push`: the item is found under its handle, and no other handle sees a
-- difference.
use zssp.Base.{
  ◌+◌, ◌≤◌, ◌<◌, ◌≡◌, refl, sym, ap, ◌∙◌, true, false, [], ◌∷◌, none, some, length, ◌==◌, arith,
  subst, get_elem?_lt, length-append, u64_mod,
}
use zssp.IndexedHeap.{
  Priority, IndexedBinaryHeap, BinaryHeapIndex, push_reserved, push, get, reserved_marker,
  usize_max,
}
use zssp.IndexedHeap.Reads.{read-get, gen}
use zssp.IndexedHeap.Order.{IsHeap}
use zssp.IndexedHeap.Up.{bubble_up-some}
use zssp.IndexedHeap.Valid.{
  IsQueue, Kept-IsSound, Kept-lookup, lookup, get-lookup, Changed, Changed-lookup,
}
use zssp.IndexedHeap.Reserve.{Reserved-lookup, reserve_index-some}
use zssp.IndexedHeap.Append.{
  appended, in_map, appended-IsSound, appended-UpInv, appended-lookup, appended-lookup_else,
}

module _ {ℓ} {T P : Type ℓ} (order : Priority P) where
  pub push_reserved-some :
      (h : IndexedBinaryHeap T P) (idx : BinaryHeapIndex) (item : T) (priority : P)
      → IsQueue order h
      → gen h.map idx.slot ≡ reserved_marker
      → 2 ≤ idx.generation
      → idx.generation ≤ h.generation
      → (h' : IndexedBinaryHeap T P) × (push_reserved order h idx item priority ≡ some (h', true))
        × IsQueue order h'
        × Changed h idx (some (item, priority)) h'
  unfolding push_reserved
  push_reserved-some h idx item priority v fresh live known =
      let sound = appended-IsSound order h idx item priority v.sound fresh live known in
      let h1 = appended order h idx item priority in
      let size : length h1.entries ≡ length h.entries + 1 = length-append h.entries (_ ∷ []) in
      let (h', made, kept, heap) =
        bubble_up-some order (length h.entries + 1) h1 (length h.entries) sound.linked
          (appended-UpInv order h idx item priority v.sound fresh live known v.heap) (omega arith)
          (omega arith) in
      let sound' = Kept-IsSound order h1 h' sound kept in
      let ((p, g), e) =
        get_elem?_lt h.map idx.slot (in_map order h idx item priority v.sound fresh live known) in
      let eg : (g == reserved_marker) ≡ true =
        ground (arith, read-get (λ (p, g). g) h.map idx.slot (p, g) e) in
      (
        h',
        rw (push_reserved, e, eg, made) refl,
        record { sound = sound'; heap = heap },
        Changed-lookup h idx (some (item, priority)) h' v.sound sound' live
            (Kept-lookup order h1 h' idx kept
              ∙ appended-lookup order h idx item priority v.sound fresh live known)
            (λ other live' ne.
              Kept-lookup order h1 h' other kept
              ∙ appended-lookup_else order h idx item priority v.sound fresh live known other live'
                  ne),
      )

  -- `push` of a well-formed queue with room ends and gives a well-formed queue; its handle was free,
  -- now finds the item and its priority, and every other handle finds what it found before. A handle has a generation
  -- of 2 or more.
  pub push-get :
      (h : IndexedBinaryHeap T P) (item : T) (priority : P)
      → IsQueue order h
      → h.generation + 1 < u64_mod
      → length h.map < usize_max
      → (h' : IndexedBinaryHeap T P) × (idx : BinaryHeapIndex) × (push order h item priority
          ≡ some (h', idx))
        × IsQueue order h'
        × (get h idx ≡ some none)
        × Changed h idx (some (item, priority)) h'
  unfolding push lookup
  push-get h item priority v hg fits =
      let (h1, s, made, r) = reserve_index-some h v.sound hg fits in
      let idx : BinaryHeapIndex = record { slot = s; generation = h.generation + 1 } in
      let live : 2 ≤ idx.generation = omega (arith, v.sound.started) in
      let v1 : IsQueue order h1 = record {
        sound = r.sound;
        heap = subst (IsHeap order) (sym r.entries_eq) v.heap;
      } in
      let (h', pushed, v', c) =
        push_reserved-some h1 idx item priority v1 r.mark live (omega (arith, r.generation_eq)) in
      let unknown : (gen h.map s == idx.generation) ≡ false = ground (arith, r.unused) in
      (
        h',
        idx,
        rw (made, pushed) refl,
        v',
        get-lookup h idx v.sound.linked live ∙ rw unknown refl,
        record {
          here = c.here;
          elsewhere = λ other live' ne.
              c.elsewhere other live' ne
              ∙ get-lookup h1 other r.sound.linked live'
              ∙ ap some (Reserved-lookup h s h1 other r live')
              ∙ sym (get-lookup h other v.sound.linked live');
        },
      )
