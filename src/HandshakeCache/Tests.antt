-- ===== src/HandshakeCache/Tests.antt =====
-- performance/src/handshake_cache.rs: runs of a cache of two slots, whose states are numbers.
use zssp.Base.{
  ℕ, ◌-◌, ltb, ◌<◌, ◌≡◌, ◌≢◌, ◌⊎◌, refl, true, false, Option, none, some, get_or, arith,
}
use zssp.HandshakeCache.{
  UnassociatedHandshakeCache, new, get, insert, remove, service, put, find, later, scan, shift,
  holds, is_some, expire, expire_slot,
}
use zssp.HandshakeCache.Insert.{IsCache, new-IsCache, insert-get, insert-IsCache, remove-IsCache}
use zssp.HandshakeCache.Search.{copies}
use zssp.HandshakeCache.Service.{service-Due, Due, SameSlot, used}

abbrev two : UnassociatedHandshakeCache ℕ
two = (insert 10 (insert 10 (new 2) 7 70 0).0 8 80 5).0

get-two : get two 7 ≡ some 70
unfolding get insert new put find later scan shift holds is_some
get-two = refl

-- The cache is full, so the first slot goes.
insert_full : get (insert 10 two 9 90 6).0 7 ≡ none
unfolding get insert new put find later scan shift holds is_some
insert_full = refl

-- An expired slot is used before the search meets the id, which then stands in two slots: after it is
-- removed, the older state is found.
insert_twice : get (remove (insert 10 two 8 81 12).0 8).0 8 ≡ some 80
unfolding get insert new put find later scan shift holds is_some remove
insert_twice = refl

service-two : (service two 10).1 ≡ 15
unfolding service expire expire_slot insert new put find later scan shift holds is_some
service-two = refl

two-IsCache : IsCache two
two-IsCache =
    insert-IsCache 10 (insert 10 (new 2) 7 70 0).0 8 80 5
      (insert-IsCache 10 (new 2) 7 70 0 (new-IsCache 2 (omega arith)) (omega arith)) (omega arith)

insert-get_example :
    (h' : UnassociatedHandshakeCache ℕ) × (r : Option ℕ) × (insert 10 two 9 90 6 ≡ (h', r))
    × IsCache h'
    × (((r ≡ some 16) × (get h' 9 ≡ some 90))
        ⊎ ((r ≡ none) × (h' ≡ two) × ((b : ℕ) × (get two 9 ≡ some b))))
insert-get_example = insert-get 10 two 9 90 6 two-IsCache (omega arith)

remove-IsCache_example :
    (h' : UnassociatedHandshakeCache ℕ) × (remove two 8 ≡ (h', is_some (get two 8)))
    × IsCache h'
    × ((other : ℕ) → other ≢ 8 → get h' other ≡ get two other)
    × (copies h'.cache.local_ids 8 ≡ copies two.cache.local_ids 8 - 1)
    × (is_some (get h' 8) ≡ ltb 1 (copies two.cache.local_ids 8))
remove-IsCache_example = remove-IsCache two 8 two-IsCache

service-Due_example :
    (h' : UnassociatedHandshakeCache ℕ) × (t : ℕ) × (service two 10 ≡ (h', t))
    × IsCache h'
    × ((j : ℕ) → used h'.cache j ≡ true → Due 10 h'.cache t j)
    × ((j : ℕ)
        → (used two.cache j ≡ false) ⊎ (10 < get_or two.cache.expiries j 0)
        → SameSlot two.cache h'.cache j)
service-Due_example = service-Due two 10 two-IsCache
