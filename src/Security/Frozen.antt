-- ===== src/Security/Frozen.antt =====
-- app/api/deps.py: authentication reads the database and never writes it.
use hotels_aggregator.Prelude.{String, Option, none, some}
use hotels_aggregator.Json.{Json, text, null, boolean, int, float, array, object, Fields}
use hotels_aggregator.Outside.{Outside}
use hotels_aggregator.Exec.Keeps.{Keeps}
use hotels_aggregator.Exec.Hoare.{Frozen}
use hotels_aggregator.Client.Frozen.{frozen_rules}
use hotels_aggregator.Security.Auth.{
  uuid_of, subject_of, checked_subject, decode_subject, decode_access_token,
  decode_hotel_access_token,
}
use hotels_aggregator.Security.Deps.{bearer_token, get_current_traveler, get_current_hotel_user}

module _ (O : Outside) where
  uuid_of-Frozen : (j : Json) → Keeps Frozen (uuid_of O j)
  unfolding uuid_of
  uuid_of-Frozen (text s) = search frozen_rules
  uuid_of-Frozen null = search frozen_rules
  uuid_of-Frozen (boolean _) = search frozen_rules
  uuid_of-Frozen (int _) = search frozen_rules
  uuid_of-Frozen (float _) = search frozen_rules
  uuid_of-Frozen (array _) = search frozen_rules
  uuid_of-Frozen (object _) = search frozen_rules

  subject_of-Frozen : (sub : Option Json) → Keeps Frozen (subject_of O sub)
  unfolding subject_of
  subject_of-Frozen none = search frozen_rules
  subject_of-Frozen (some sub) = search (frozen_rules, uuid_of-Frozen)

  checked_subject-Frozen :
      (scope : String) (fs : Option Fields) → Keeps Frozen (checked_subject O scope fs)
  unfolding checked_subject
  checked_subject-Frozen scope none = search frozen_rules
  checked_subject-Frozen scope (some fs) = search (frozen_rules, subject_of-Frozen)

  decode_subject-Frozen : (token scope : String) → Keeps Frozen (decode_subject O token scope)
  unfolding decode_subject
  decode_subject-Frozen token scope = search (frozen_rules, checked_subject-Frozen)

  bearer_token-Frozen : (c : Option String) → Keeps Frozen (bearer_token O c)
  unfolding bearer_token
  bearer_token-Frozen none = search frozen_rules
  bearer_token-Frozen (some t) = search frozen_rules

  pub get_current_traveler-Frozen : (c : Option String) → Keeps Frozen (get_current_traveler O c)
  unfolding get_current_traveler decode_access_token
  get_current_traveler-Frozen c =
      search (frozen_rules, bearer_token-Frozen, decode_subject-Frozen) depth 9

  pub get_current_hotel_user-Frozen :
      (c : Option String) → Keeps Frozen (get_current_hotel_user O c)
  unfolding get_current_hotel_user decode_hotel_access_token
  get_current_hotel_user-Frozen c =
      search (frozen_rules, bearer_token-Frozen, decode_subject-Frozen) depth 9
