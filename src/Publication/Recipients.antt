-- ===== src/Publication/Recipients.antt =====
-- backend/apps/notifications/recipients.py and policies.py, and the preferences of services.py.
use cubingnow.Prelude.{
  ℕ, Bool, true, false, not, ◌&&◌, ◌||◌, Option, none, some, List, [], ◌∷◌, ◌++◌, map, Text, text,
  text_eq, ◌==◌, if◌then◌else◌, any, select,
}
use cubingnow.Delivery.{NotificationEndpoint}

pub data NotificationType : Type 0 where
  record_wr record_cr record_nr : NotificationType

abbrev pub same_type : NotificationType → NotificationType → Bool
same_type record_wr record_wr = true
same_type record_cr record_cr = true
same_type record_nr record_nr = true
same_type _ _ = false

pub record NotificationPreference : Type 0 where
  pub endpoint : Option ℕ
  pub user : Option ℕ
  pub notification_type : NotificationType
  pub enabled : Bool

-- Equality of foreign keys, where a null is equal to nothing.
abbrev pub same_key : Option ℕ → Option ℕ → Bool
same_key (some a) (some b) = a == b
same_key (some a) none = false
same_key none k = false

abbrev pub of_endpoint : NotificationType → NotificationEndpoint → NotificationPreference → Bool
of_endpoint type e p = same_key p.endpoint (some e.pk) && same_type p.notification_type type

abbrev pub of_user : NotificationType → NotificationEndpoint → NotificationPreference → Bool
of_user type e p = same_key p.user e.user && same_type p.notification_type type

-- `DEFAULT_PREFERENCES`
abbrev pub default_preference : NotificationType → Bool
default_preference type = true

abbrev pub webpush : Text
webpush = text "webpush"

unfoldable pub may_receive :
    NotificationType → List NotificationPreference → NotificationEndpoint → Bool
may_receive type preferences e =
    let endpoint_explicit = any (of_endpoint type e) preferences in
    let endpoint_enabled = any (λ p. of_endpoint type e p && p.enabled) preferences in
    let user_explicit = any (of_user type e) preferences in
    let user_enabled = any (λ p. of_user type e p && p.enabled) preferences in
    (user_explicit && user_enabled)
    || (not user_explicit && endpoint_explicit && endpoint_enabled)
    || (default_preference type && not user_explicit && not endpoint_explicit)

abbrev pub is_reachable : NotificationEndpoint → Bool
is_reachable e = e.active && text_eq e.provider webpush && e.has_webpush_subscription

unfoldable pub eligible_endpoints :
    NotificationType
    → List NotificationPreference
    → List NotificationEndpoint
    → List NotificationEndpoint
unfolding may_receive text_eq
eligible_endpoints type preferences endpoints =
    select (λ e. is_reachable e && may_receive type preferences e) endpoints

-- `update_or_create` of the preference of an endpoint.
unfoldable pub update_preference :
    NotificationEndpoint
    → NotificationType
    → Bool
    → List NotificationPreference
    → List NotificationPreference
update_preference e type enabled preferences =
    if any (of_endpoint type e) preferences
    then map (λ p. if of_endpoint type e p then record p { enabled = enabled } else p) preferences
    else preferences
      ++ record { endpoint = some e.pk; user = none; notification_type = type; enabled = enabled }
        ∷ []

-- The loop of `set_endpoint_preferences`.
unfoldable pub update_preferences :
    NotificationEndpoint
    → List (NotificationType × Bool)
    → List NotificationPreference
    → List NotificationPreference
unfolding update_preference
update_preferences e [] preferences = preferences
update_preferences e ((type, enabled) ∷ rest) preferences =
    update_preferences e rest (update_preference e type enabled preferences)

-- `set_endpoint_preferences`: for each type, whether it is on behind the changes.
unfoldable pub set_endpoint_preferences :
    NotificationEndpoint
    → List (NotificationType × Bool)
    → List NotificationPreference
    → (NotificationType → Bool) × List NotificationPreference
unfolding update_preferences
set_endpoint_preferences e values preferences =
    let after = update_preferences e values preferences in
    (λ type. any (λ p. of_endpoint type e p && p.enabled) after, after)

unfoldable pub attach_endpoint_to_user :
    ℕ → ℕ → List NotificationEndpoint → List NotificationEndpoint
attach_endpoint_to_user pk user endpoints =
    map (λ e. if e.pk == pk then record e { user = some user } else e) endpoints
