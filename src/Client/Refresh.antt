-- ===== src/Client/Refresh.antt =====
-- The refreshers of client/client.go: when they refresh a lock, and that a name has one at most.
use Prim.Native.Nat.{max}
use go_ldlm.Client.{starting, maybe_create_refresher, refresh_interval, Client, is_zero}
use go_ldlm.Common.{
  ◌++◌, [], ◌∷◌, lookup-insert, eq_refl, lookup, string_panic, returns, panics, ◌-◌, String, ◌↔◌,
  inl, inr, leb, Bool-cases, ℤ, pos_part, pos, negsuc, ℕ, ◌≤◌, ◌<◌, ◌≡◌, refl, true, false, none,
  arith,
}

max_interval : (t : ℕ) → 30 < t → (10 ≤ max (t - 30) 10) × ((max (t - 30) 10 < t) ↔ (10 < t))
max_interval t h = (omega arith, ((λ a. omega (arith, h)), λ a. omega (arith, h)))

-- A refresher waits ten seconds at least, and it refreshes a lock before its timeout exactly if
-- that is longer than ten seconds.
pub refresh_interval_in_time :
    (t : ℤ) → (10 ≤ refresh_interval t) × ((refresh_interval t < pos_part t) ↔ (10 < pos_part t))
unfolding refresh_interval
refresh_interval_in_time (negsuc n) =
    (omega arith, (λ h. absurd (omega (arith, h)), λ h. absurd (omega (arith, h))))
refresh_interval_in_time (pos t) = elim (Bool-cases (leb t 30)) [
  | inl h ↦ rw h (omega arith, (λ a. a, λ a. a))
  | inr h ↦ rw h (max_interval t (ground (arith, h)))
]

-- With automatic refreshes on, and for a response that says `locked` and a timeout that is not
-- zero: where the name has no refresher, the call adds one; a second lock of that name then panics,
-- and it has started one more goroutine, which no refresher in the map can stop.
pub maybe_create_refresher_once :
    (name key key' : String) (t : ℤ) (c : Client)
    → c.no_auto_refresh ≡ false
    → is_zero t ≡ false
    → lookup name c.refresh_map ≡ none
    → let r = maybe_create_refresher true name key t c in
      let second = maybe_create_refresher true name key' t r.1 in
      (r.0 ≡ returns tt)
      × (second.0 ≡ panics (string_panic "client out of sync - lock already exists in refresh map"))
      × (second.1.refresh_map ≡ r.1.refresh_map)
      × (second.1.goroutines ≡ r.1.goroutines ++ starting ∷ [])
unfolding maybe_create_refresher
maybe_create_refresher_once name key key' t c auto nonzero absent =
    simp (auto, nonzero, absent, lookup-insert, eq_refl) (refl, refl, refl, refl)
