-- ===== src/Client/Frozen.antt =====
-- The client, the cache and the reads of the orchestrator leave the database alone.
use hotels_aggregator.Prelude.{ℕ, String, Option, none, some}
use hotels_aggregator.Json.{Json}
use hotels_aggregator.Models.Hotels.{HotelCredential}
use hotels_aggregator.Exceptions.{HotelErpKind}
use hotels_aggregator.Outside.{
  Outside, HttpOutcome, response, transport_failure, Response, Content, no_content,
}
use hotels_aggregator.Exec.Keeps.{Keeps, Keeps-pure, Keeps-throw, Keeps-bind, Keeps-if, keeps_rules}
use hotels_aggregator.Exec.Hoare.{Frozen, Frozen-stable, Frozen-ignores}
use hotels_aggregator.Client.Errors.{raise_for_error, throw_typed, ErrorFields}
use hotels_aggregator.Client.{
  HotelErpClient, from_credential, body_of, content_of, receive, request, idem,
}
use hotels_aggregator.Client.Endpoints.{
  create_hold, confirm_hold, release_hold, cancel_reservation, get_availability, list_room_types,
}

pub ruleset frozen_rules = (Frozen-stable, Frozen-ignores, keeps_rules)

module _ (O : Outside) where
  pub from_credential-Frozen : (cred : HotelCredential) → Keeps Frozen (from_credential O cred)
  unfolding from_credential
  from_credential-Frozen cred = search frozen_rules

  content_of-Frozen : (c : Content) → Keeps Frozen (content_of O c)
  unfolding content_of
  content_of-Frozen no_content = search frozen_rules
  content_of-Frozen _ = search frozen_rules

  body_of-Frozen : (r : Response) → Keeps Frozen (body_of O r)
  unfolding body_of
  body_of-Frozen r = search (frozen_rules, content_of-Frozen)

  throw_typed-Frozen :
      (status : ℕ) (f : ErrorFields) (k : Option HotelErpKind)
      → Keeps Frozen (throw_typed O status f k)
  throw_typed-Frozen status f none = search frozen_rules
  throw_typed-Frozen status f (some k) = search frozen_rules

  raise_for_error-Frozen : (r : Response) → Keeps Frozen (raise_for_error O r)
  unfolding raise_for_error
  raise_for_error-Frozen r = search (frozen_rules, throw_typed-Frozen) depth 8

  receive-Frozen : (url : String) (o : HttpOutcome) → Keeps Frozen (receive O url o)
  unfolding receive
  receive-Frozen url (transport_failure n) = search frozen_rules
  receive-Frozen url (response r) = search (frozen_rules, raise_for_error-Frozen, body_of-Frozen)

  idem-Frozen : (k : Option String) → Keeps Frozen (idem O k)
  unfolding idem
  idem-Frozen none = search frozen_rules
  idem-Frozen (some k) = search frozen_rules depth 8

  pub request-Frozen :
      (c : HotelErpClient) (method path : String) (params json : Option Json) (key : Option String)
      → Keeps Frozen (request O c method path params json key)
  unfolding request
  request-Frozen c method path params json key = search (frozen_rules, receive-Frozen)

  pub create_hold-Frozen :
      (c : HotelErpClient) (body : Json) (key : Option String)
      → Keeps Frozen (create_hold O c body key)
  unfolding create_hold
  create_hold-Frozen c body key = search (frozen_rules, idem-Frozen, request-Frozen)

  pub confirm_hold-Frozen :
      (c : HotelErpClient) (h : String) (body : Json) (key : Option String)
      → Keeps Frozen (confirm_hold O c h body key)
  unfolding confirm_hold
  confirm_hold-Frozen c h body key = search (frozen_rules, idem-Frozen, request-Frozen)

  pub release_hold-Frozen :
      (c : HotelErpClient) (h : String) (key : Option String)
      → Keeps Frozen (release_hold O c h key)
  unfolding release_hold
  release_hold-Frozen c h key = search (frozen_rules, idem-Frozen, request-Frozen)

  pub cancel_reservation-Frozen :
      (c : HotelErpClient) (r : String) (key : Option String)
      → Keeps Frozen (cancel_reservation O c r key)
  unfolding cancel_reservation
  cancel_reservation-Frozen c r key = search (frozen_rules, idem-Frozen, request-Frozen)

  pub list_room_types-Frozen :
      (c : HotelErpClient) (since cursor : Option String) (limit : ℕ)
      → Keeps Frozen (list_room_types O c since cursor limit)
  unfolding list_room_types
  list_room_types-Frozen c since cursor limit = search (frozen_rules, request-Frozen)

  pub get_availability-Frozen :
      (c : HotelErpClient) (room_type_id check_in check_out : String) (rooms adults children : ℕ)
      → Keeps Frozen (get_availability O c room_type_id check_in check_out rooms adults children)
  unfolding get_availability
  get_availability-Frozen c room_type_id check_in check_out rooms adults children =
      search (frozen_rules, request-Frozen)
