-- ===== src/Publication/Preferences.antt =====
-- Which endpoints are eligible, against a resolution that reads one preference at a time.
use cubingnow.Prelude.{
  Bool, true, false, not, ◌&&◌, ◌||◌, Option, none, some, List, [], ◌∷◌, ◌≡◌, refl, inl, inr, arith,
  All, Bool-cases, if◌then◌else◌, any,
}
use cubingnow.Delivery.{NotificationEndpoint}
use cubingnow.Publication.Recipients.{
  NotificationType, NotificationPreference, of_endpoint, of_user, may_receive, default_preference,
}

module _ (p : NotificationPreference → Bool) where
  -- The first preference of an owner.
  abbrev pub preference_of : List NotificationPreference → Option Bool
  preference_of [] = none
  preference_of (x ∷ xs) = let later = preference_of xs in if p x then some x.enabled else later

  -- No two preferences of the owner.
  abbrev pub AtMostOne : List NotificationPreference → Type 0
  AtMostOne [] = Unit
  AtMostOne (x ∷ xs) = ((p x ≡ true) → All (λ y. p y ≡ false) xs) × AtMostOne xs

  enabled-none :
      (xs : List NotificationPreference)
      → All (λ y. p y ≡ false) xs
      → any (λ y. p y && y.enabled) xs ≡ false
  enabled-none [] h = refl
  enabled-none (x ∷ xs) h = rw (h.0) (enabled-none xs h.1)

  abbrev Reads : Option Bool → List NotificationPreference → Type 0
  Reads none xs = any p xs ≡ false
  Reads (some enabled) xs = (any p xs ≡ true) × (any (λ y. p y && y.enabled) xs ≡ enabled)

  Reads-skip :
      (found : Option Bool) (x : NotificationPreference) (xs : List NotificationPreference)
      → p x ≡ false
      → Reads found xs
      → Reads found (x ∷ xs)
  Reads-skip none x xs e h = rw e h
  Reads-skip (some enabled) x xs e h = rw e h

  or_false : (b : Bool) → (b || false) ≡ b
  or_false true = refl
  or_false false = refl

  Reads-here :
      (x : NotificationPreference) (xs : List NotificationPreference)
      → p x ≡ true
      → All (λ y. p y ≡ false) xs
      → Reads (some x.enabled) (x ∷ xs)
  Reads-here x xs e h = ((rw e refl), (rw (e, enabled-none xs h) (or_false x.enabled)))

  pub preference_of-Reads :
      (xs : List NotificationPreference) → AtMostOne xs → Reads (preference_of xs) xs
  preference_of-Reads [] h = refl
  preference_of-Reads (x ∷ xs) h = elim (Bool-cases (p x)) [
    | inr e ↦ rw e (Reads-skip (preference_of xs) x xs e (preference_of-Reads xs h.1))
    | inl e ↦ rw e (Reads-here x xs e (h.0 e))
  ]

-- The preference of the user, then that of the endpoint, then the default.
abbrev pub resolve : Option Bool → Option Bool → Bool → Bool
resolve (some enabled) endpoint default = enabled
resolve none (some enabled) default = enabled
resolve none none default = default

resolved :
    (user endpoint : Option Bool) (p q : NotificationPreference → Bool)
    (xs : List NotificationPreference) (default : Bool)
    → Reads p user xs
    → Reads q endpoint xs
    → ((any p xs && any (λ y. p y && y.enabled) xs)
        || (not (any p xs) && any q xs && any (λ y. q y && y.enabled) xs)
        || (default && not (any p xs) && not (any q xs)))
      ≡ resolve user endpoint default
resolved (some enabled) endpoint p q xs default (e, v) h = rw (e, v) ground arith
resolved none (some enabled) p q xs default e (f, v) = rw (e, f, v) ground arith
resolved none none p q xs default e f = rw (e, f) ground arith

-- Where a user and an endpoint have at most one preference for a type, an endpoint may receive it as the
-- preference of its user says, without one as that of the endpoint says, without either by default.
pub may_receive-eq-resolve :
    (type : NotificationType) (preferences : List NotificationPreference) (e : NotificationEndpoint)
    → AtMostOne (of_user type e) preferences
    → AtMostOne (of_endpoint type e) preferences
    → may_receive type preferences e
      ≡ resolve
          (preference_of (of_user type e) preferences)
          (preference_of (of_endpoint type e) preferences)
          (default_preference type)
unfolding may_receive
may_receive-eq-resolve type preferences e one_user one_endpoint =
    resolved (preference_of (of_user type e) preferences)
      (preference_of (of_endpoint type e) preferences) (of_user type e) (of_endpoint type e)
      preferences (default_preference type)
      (preference_of-Reads (of_user type e) preferences one_user)
      (preference_of-Reads (of_endpoint type e) preferences one_endpoint)
