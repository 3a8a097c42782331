-- ===== src/Publication/Payload.antt =====
-- backend/apps/notifications/payloads.py. The reference data, `urlsplit`, the digest and the texts of
-- identifiers and moments are a parameter; an exception is `none`.
use cubingnow.Prelude.{
  ℕ, Bool, false, not, ◌&&◌, ◌||◌, Option, none, some, [], ◌∷◌, ◌++◌, Text, text, text_eq, nonempty,
  or_text, upper, if◌then◌else◌, take,
}
use cubingnow.Models.{Kind, RecordLevel, world, continental, national, personal}
use cubingnow.Observation.{kind_text}
use cubingnow.RecordValidation.{level_text}
use cubingnow.Scopes.{Countries}
use cubingnow.Publication.Recipients.{NotificationType, record_wr, record_cr, record_nr}

-- `short_name` is that of events.json, empty if there is none; `urlsplit` gives scheme and netloc.
pub record Reference : Type 0 where
  pub short_name : Text → Text
  pub countries : Countries
  pub urlsplit : Text → Text × Text
  pub hexdigest : Text → Text
  pub uuid_text : ℕ → Text
  pub isoformat : ℕ → Text

-- What a record has for a notification; `venue_country` is the country of the first venue that its
-- source payload names, or empty.
pub record Notice : Type 0 where
  pub pk : Option ℕ
  pub canonical_key : Text
  pub record_level : RecordLevel
  pub event_id : Text
  pub event_name : Text
  pub formatted_result : Text
  pub competitor_name : Text
  pub country_code : Text
  pub competition_country_code : Text
  pub competition_name : Text
  pub kind : Kind
  pub detected_at : ℕ
  pub venue_country : Text

pub record RecordPayload : Type 0 where
  pub notification_event_id : Text
  pub notification_type : NotificationType
  pub title : Text
  pub body : Text
  pub target_url : Text
  pub tag : Text
  pub icon : Text
  pub record_level : RecordLevel
  pub event_id : Text
  pub formatted_result : Text
  pub kind : Kind
  pub competitor_name : Text
  pub country_code : Text
  pub competition_name : Text
  pub competition_country_code : Text
  pub detected_at : Text

-- `LEVEL_TO_NOTIFICATION_TYPE`
abbrev pub notification_type_of : RecordLevel → Option NotificationType
notification_type_of world = some record_wr
notification_type_of continental = some record_cr
notification_type_of national = some record_nr
notification_type_of personal = none

abbrev is_path : Text → Bool
is_path [] = false
is_path (c ∷ []) = text_eq (c ∷ []) (text "/")
is_path (c ∷ d ∷ rest) = text_eq (c ∷ []) (text "/") && not (text_eq (d ∷ []) (text "/"))

unfoldable pub validate_relative_target_url : (Text → Text × Text) → Text → Option Text
unfolding text_eq
validate_relative_target_url urlsplit value =
    let (scheme, netloc) = urlsplit value in
    if not (is_path value)
    then none
    else if nonempty scheme || nonempty netloc
    then none
    else some value

abbrev continent_icon_key : Text → Text
continent_icon_key continent =
    if text_eq continent (text "Africa")
    then text "AfR"
    else if text_eq continent (text "Asia")
    then text "AsR"
    else if text_eq continent (text "Europe")
    then text "ER"
    else if text_eq continent (text "North America")
    then text "NAR"
    else if text_eq continent (text "South America")
    then text "SAR"
    else if text_eq continent (text "Oceania")
    then text "OcR"
    else text "CR"

module _ (reference : Reference) where
  abbrev continent_of : Text → Text
  continent_of code = elim (reference.countries (upper code)) [
    | some country ↦ country.continent
    | none ↦ []
  ]

  abbrev display_name : Text → Text
  display_name code = elim (reference.countries (upper code)) [
    | some country ↦ or_text country.display_name code
    | none ↦ code
  ]

  -- `_level_label`
  unfoldable pub level_label : RecordLevel → Text → Text
  unfolding text_eq upper
  level_label continental code = continent_icon_key (continent_of code)
  level_label world code = level_text world
  level_label national code = level_text national
  level_label personal code = level_text personal

  -- `_notification_icon`
  unfoldable pub notification_icon : RecordLevel → Text → Text
  unfolding level_label text_eq
  notification_icon level code =
      if text_eq (level_label level code) (text "CR")
      then text "/icons/icon-192.png"
      else text "/notification_icons/notification_icon_" ++ (level_label level code ++ text ".png")

  -- `_competition_country_code`
  abbrev pub competition_country : Notice → Text
  competition_country notice = or_text notice.competition_country_code notice.venue_country

  abbrev title_of : Notice → Bool → Text
  title_of notice test =
      (if test then text "[TEST] " else [])
      ++ (or_text (reference.short_name notice.event_id) notice.event_name
          ++ (text " "
              ++ (level_label notice.record_level notice.country_code
                  ++ (text " "
                      ++ (kind_text notice.kind ++ (text ": " ++ notice.formatted_result))))))

  abbrev body_of : Notice → Text
  body_of notice =
      text "By "
      ++ (notice.competitor_name
          ++ (text " from "
              ++ (display_name notice.country_code
                  ++ (text " at "
                      ++ (notice.competition_name
                          ++ (text " in " ++ display_name (competition_country notice)))))))

  -- The payload at a target that is accepted.
  unfoldable pub payload_at :
      ℕ → NotificationType → Text → ℕ → Notice → Bool → Option Text → Option RecordPayload
  unfolding level_label notification_icon
  payload_at id type key occurred_at notice test none = none
  payload_at id type key occurred_at notice test (some target) = some (record {
    notification_event_id = reference.uuid_text id;
    notification_type = type;
    title = title_of notice test;
    body = body_of notice;
    target_url = target;
    tag = text "record:" ++ take 32 (reference.hexdigest key);
    icon = notification_icon notice.record_level notice.country_code;
    record_level = notice.record_level;
    event_id = notice.event_id;
    formatted_result = notice.formatted_result;
    kind = notice.kind;
    competitor_name = notice.competitor_name;
    country_code = notice.country_code;
    competition_name = notice.competition_name;
    competition_country_code = competition_country notice;
    detected_at = reference.isoformat occurred_at;
  })

  -- `build_record_payload` of an event's key, type, deduplication key and moment.
  unfoldable pub build_record_payload :
      ℕ → NotificationType → Text → ℕ → Notice → Text → Bool → Option RecordPayload
  unfolding validate_relative_target_url payload_at
  build_record_payload id type key occurred_at notice url test =
      payload_at id type key occurred_at notice test
        (validate_relative_target_url reference.urlsplit url)
