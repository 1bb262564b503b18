-- ===== src/Client/Stopping.antt =====
-- How the refreshers of client/client.go end, and how they do not.
use go_ldlm.Client.Requests.{Reply, CallError}
use go_ldlm.Client.Goroutine.{refresh_failure, refresher_event, refresher_step, refresh_returns}
use go_ldlm.Client.{
  Client, Refresher, Phase, starting, selecting, refreshing, finished, phase_of, stop, stopped,
  stop_all,
}
use go_ldlm.Errors.{Error}
use Prim.Native.String
use go_ldlm.Common.{
  Assoc, lookup, Outcome, returns, panics, error_panic, string_panic, ℕ, zero, suc, get_or, set,
  String, ◌==◌, ◌≡◌, refl, sym, ap, ◌∙◌, inl, inr, ◌⊎◌, some, List, [], ◌∷◌, arith, pure, continue,
  Bool-cases,
}

-- The client panics at a send on a closed channel.
abbrev pub IsSentClosed : {A : Type 0} → Outcome A → Type 0
IsSentClosed r = r ≡ panics (error_panic "send on closed channel")

-- The lists of goroutines.
pub set_keeps :
    (ps : List Phase) (i j : ℕ)
    → get_or ps j starting ≡ finished
    → get_or (set ps i finished) j starting ≡ finished
set_keeps [] i j h = h
set_keeps (p ∷ ps) zero zero h = refl
set_keeps (p ∷ ps) zero (suc j) h = h
set_keeps (p ∷ ps) (suc i) zero h = h
set_keeps (p ∷ ps) (suc i) (suc j) h = set_keeps ps i j h

pub set_here :
    (ps : List Phase) (i : ℕ)
    → get_or ps i starting ≡ selecting
    → get_or (set ps i finished) i starting ≡ finished
set_here [] i h = absurd (ground (arith, h))
set_here (p ∷ ps) zero h = refl
set_here (p ∷ ps) (suc i) h = set_here ps i h

set_near :
    (ps : List Phase) (i j : ℕ)
    → get_or ps j starting ≡ selecting
    → (get_or (set ps i finished) j starting ≡ finished)
      ⊎ (get_or (set ps i finished) j starting ≡ selecting)
set_near [] i j h = inr h
set_near (p ∷ ps) zero zero h = inl refl
set_near (p ∷ ps) zero (suc j) h = inr h
set_near (p ∷ ps) (suc i) zero h = inr h
set_near (p ∷ ps) (suc i) (suc j) h = set_near ps i j h

-- Stop ends the goroutine that is at its select.
pub stop_selecting :
    (r : Refresher) (c : Client)
    → phase_of r.id c ≡ selecting
    → stop r c ≡ (returns tt, record c { goroutines = set c.goroutines r.id finished })
unfolding stop stopped
stop_selecting r c h = rw h refl

-- Stop does not wait for a goroutine that is in its call of RefreshLock.
pub stop_refreshing :
    (r : Refresher) (c : Client) → phase_of r.id c ≡ refreshing → stop r c ≡ (returns tt, c)
unfolding stop stopped
stop_refreshing r c h = rw h refl

pub refresh_panics :
    (r : Refresher) (reply : Reply) (e : CallError ⊎ Error) (c : Client)
    → phase_of r.id c ≡ refreshing
    → refresh_failure reply ≡ some e
    → (refresher_step r (refresh_returns reply) c).0
      ≡ panics (string_panic (String.◌++◌ "error refreshing lock " r.name))
unfolding refresher_step refresher_event
refresh_panics r reply e c h f = rw (h, f) refl

-- Stop of a goroutine that has ended panics.
pub stop-finished :
    (r : Refresher) (c : Client) → phase_of r.id c ≡ finished → IsSentClosed (stop r c).0
unfolding stop stopped
stop-finished r c h = rw h refl

pub stop_outcome :
    (r : Refresher) (c : Client) → ((stop r c).0 ≡ returns tt) ⊎ IsSentClosed (stop r c).0
unfolding stop
stop_outcome r c = at_phase (phase_of r.id c)
  where
    at_phase : (p : Phase) → ((stopped r.id p c).0 ≡ returns tt) ⊎ IsSentClosed (stopped r.id p c).0
    at_phase starting = inl (unfold stopped in refl)
    at_phase selecting = inl (unfold stopped in refl)
    at_phase refreshing = inl (unfold stopped in refl)
    at_phase finished = inr (unfold stopped in refl)

-- Stop changes nothing but the phases of goroutines: one that has ended stays so, and one that is at
-- its select stays there or ends.
pub record Stops (c : Client) (r : Outcome (Unit {0}) × Client) : Type 0 where
  pub same_map : r.1.refresh_map ≡ c.refresh_map
  pub same_auto : r.1.no_auto_refresh ≡ c.no_auto_refresh
  pub stays : (i : ℕ) → phase_of i c ≡ finished → phase_of i r.1 ≡ finished
  pub near :
      (i : ℕ)
      → phase_of i c ≡ selecting
      → (phase_of i r.1 ≡ finished) ⊎ (phase_of i r.1 ≡ selecting)

pub stop-Stops : (r : Refresher) (c : Client) → Stops c (stop r c)
unfolding stop
stop-Stops r c = at_phase (phase_of r.id c)
  where
    same : (o : Outcome (Unit {0})) → Stops c (o, c)
    same o = record { same_map = refl; same_auto = refl; stays = λ i h. h; near = λ i h. inr h }

    at_phase : (p : Phase) → Stops c (stopped r.id p c)
    at_phase starting = unfold stopped in same _
    at_phase selecting =
        unfold stopped in
        record {
          same_map = refl;
          same_auto = refl;
          stays = λ i h. set_keeps c.goroutines r.id i h;
          near = λ i h. set_near c.goroutines r.id i h;
        }
    at_phase refreshing = unfold stopped in same _
    at_phase finished = unfold stopped in same _

pub stop_all-Stops : (m : Assoc Refresher) (c : Client) → Stops c (stop_all m c)
unfolding stop_all pure continue
stop_all-Stops [] c = record {
  same_map = refl;
  same_auto = refl;
  stays = λ i h. h;
  near = λ i h. inr h;
}
stop_all-Stops ((name, r) ∷ m) c =
    let one = stop-Stops r c in
    let rest = stop_all-Stops m (stop r c).1 in
    elim (stop_outcome r c) [
      | inl e ↦ rw e (record {
        same_map = rest.same_map ∙ one.same_map;
        same_auto = rest.same_auto ∙ one.same_auto;
        stays = λ i h. rest.stays i (one.stays i h);
        near = λ i h. elim (one.near i h) [ inl f ↦ inl (rest.stays i f) | inr g ↦ rest.near i g ];
      })
      | inr e ↦ rw e (record {
        same_map = one.same_map;
        same_auto = one.same_auto;
        stays = one.stays;
        near = one.near;
      })
    ]

-- A refresher that the map has.
pub IsAmong : Refresher → Assoc Refresher → Type 0
IsAmong r [] = ⊥
IsAmong r ((k, x) ∷ m) = (x ≡ r) ⊎ IsAmong r m

pub lookup-IsAmong :
    (name : String) (r : Refresher) (m : Assoc Refresher) → lookup name m ≡ some r → IsAmong r m
unfolding lookup IsAmong
lookup-IsAmong name r [] h = absurd (ground (arith, h))
lookup-IsAmong name r ((k, x) ∷ m) h = elim (Bool-cases (k == name)) [
  | inl y ↦ inl (ground (arith, h, y))
  | inr n ↦ inr (lookup-IsAmong name r m (ground (arith, h, n)))
]

pub stop_all_panics :
    (m : Assoc Refresher) (r : Refresher) (c : Client)
    → IsAmong r m
    → phase_of r.id c ≡ finished
    → IsSentClosed (stop_all m c).0
unfolding stop_all continue IsAmong
stop_all_panics [] r c h f = absurd h
stop_all_panics ((k, x) ∷ m) r c (inl e) f =
    rw (stop-finished x c (ap (λ y. phase_of y.id c) e ∙ f)) refl
stop_all_panics ((k, x) ∷ m) r c (inr h) f = elim (stop_outcome x c) [
  | inl e ↦ rw e (stop_all_panics m r (stop x c).1 h ((stop-Stops x c).stays r.id f))
  | inr e ↦ rw e refl
]

pub stop_all_ends :
    (m : Assoc Refresher) (r : Refresher) (c : Client)
    → IsAmong r m
    → phase_of r.id c ≡ selecting
    → (stop_all m c).0 ≡ returns tt
    → phase_of r.id (stop_all m c).1 ≡ finished
unfolding stop_all continue IsAmong
stop_all_ends [] r c h f e = absurd h
stop_all_ends ((k, x) ∷ m) r c (inl y) f e =
    let at_select = ap (λ z. phase_of z.id c) y ∙ f in
    rw (stop_selecting x c at_select) (
      (stop_all-Stops m (record c { goroutines = set c.goroutines x.id finished })).stays r.id (
        ap (λ z. get_or (set c.goroutines x.id finished) z.id starting) (sym y)
        ∙ set_here c.goroutines x.id at_select))
stop_all_ends ((k, x) ∷ m) r c (inr h) f e = elim (stop_outcome x c) [
  | inl o ↦
      let rest = stop_all-Stops m (stop x c).1 in
      rw o (elim ((stop-Stops x c).near r.id f) [
        | inl g ↦ rest.stays r.id g
        | inr g ↦ stop_all_ends m r (stop x c).1 h g (rw o at e)
      ])
  | inr o ↦ absurd (ground (arith, rw o at e))
]

pub stop_all_outcome :
    (m : Assoc Refresher) (c : Client)
    → ((stop_all m c).0 ≡ returns tt) ⊎ IsSentClosed (stop_all m c).0
unfolding stop_all continue pure
stop_all_outcome [] c = inl refl
stop_all_outcome ((k, x) ∷ m) c = elim (stop_outcome x c) [
  | inl e ↦ rw e (stop_all_outcome m (stop x c).1)
  | inr e ↦ rw e (inr refl)
]
