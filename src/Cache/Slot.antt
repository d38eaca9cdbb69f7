-- ===== src/Cache/Slot.antt =====
-- A list with room for one entry that keeps the laws of golang-lru, for the witnesses.
use grpc_vault_ha.Prelude.{
  ◌≡◌, ◌≢◌, inr, refl, Bool, true, false, not, Option, none, some, arith, if◌then◌else◌, ◌==◌,
}
use grpc_vault_ha.Prelude.Int.{pos, ltb_ℤ}
use grpc_vault_ha.Prelude.Text.{Text, text_eq}
use grpc_vault_ha.Cache.Lru.{LruList, Laws}

module _ (V : Type 0) where
  abbrev pub Slot : Type 0
  Slot = Option (Text × V)

  abbrev pub slot_peek : Slot → Text → Option V
  slot_peek none k = none
  slot_peek (some (j, e)) k = if k == j then some e else none

  abbrev pub slot_remove : Slot → Text → Slot × Bool
  slot_remove none k = (none, false)
  slot_remove (some (j, e)) k = if k == j then (none, true) else (some (j, e), false)

  abbrev pub slot_evicts : Slot → Text → Bool
  slot_evicts none k = false
  slot_evicts (some (j, e)) k = not (k == j)

  abbrev pub slot : LruList Text V
  slot = record {
    State = Slot;
    new = λ size. if ltb_ℤ (pos 0) size then some none else none;
    get = λ s k. (s, slot_peek s k);
    peek = slot_peek;
    add = λ s k e. (some (k, e), slot_evicts s k);
    remove = slot_remove;
    purge = λ s. none;
  }

  remove_self : (s : Slot) (k : Text) → slot_peek (slot_remove s k).0 k ≡ none
  remove_self none k = refl
  remove_self (some (j, e)) k = ground arith

  remove_ne : (s : Slot) (k j : Text) → j ≢ k → slot_peek (slot_remove s k).0 j ≡ slot_peek s j
  remove_ne none k j ne = refl
  remove_ne (some (i, e)) k j ne = ground (arith, ne)

  pub slot-Laws : Laws Text V slot
  slot-Laws = record {
    new-peek = λ size s k made. ground (arith, made);
    get-peek = λ s k. refl;
    peek-get = λ s k j. refl;
    peek-add_self = λ s k v. ground arith;
    peek-add_ne = λ s k j v ne. inr (ground (arith, ne));
    peek-remove_self = remove_self;
    peek-remove_ne = remove_ne;
    peek-purge = λ s k. refl;
  }
