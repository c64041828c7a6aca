-- ===== src/Orchestrator/Frozen.antt =====
-- The parts of the orchestrator that only read and call out leave the database alone.
use hotels_aggregator.Prelude.{ℕ, String, Option, none, some}
use hotels_aggregator.Json.{Json, object}
use hotels_aggregator.Models.Hotels.{Hotel, HotelCredential}
use hotels_aggregator.Models.Bookings.{BookingReference}
use hotels_aggregator.Exceptions.{Exn, hotel_erp_error, HotelErpKind, hotel_unavailable}
use hotels_aggregator.Outside.{Outside}
use hotels_aggregator.Exec.{Exec}
use hotels_aggregator.Exec.Keeps.{Keeps}
use hotels_aggregator.Exec.Hoare.{Frozen}
use hotels_aggregator.Client.Frozen.{frozen_rules, from_credential-Frozen, release_hold-Frozen}
use hotels_aggregator.Cache.{store_hold_quote, get_hold_quote, read_quote}
use hotels_aggregator.Orchestrator.Common.{parse_dt, both_found, resolve_hotel, on_unavailable}
use hotels_aggregator.Orchestrator.Hold.{HoldArgs, keep_quote}
use hotels_aggregator.Orchestrator.Release.{send_release, pass_over_unavailable, release_on_hotel}
use hotels_aggregator.Orchestrator.Cancel.{refund_percentage}

pub Keeps-on_unavailable :
    {S A : Type 0} (k : HotelErpKind) (m n : Exec S A)
    → Keeps Frozen m
    → Keeps Frozen n
    → Keeps Frozen (on_unavailable k m n)
Keeps-on_unavailable hotel_unavailable m n km kn = km
Keeps-on_unavailable _ m n km kn = kn

module _ (O : Outside) where
  both_found-Frozen :
      (h : Option Hotel) (c : Option HotelCredential) → Keeps Frozen (both_found O h c)
  both_found-Frozen (some h) (some c) = search frozen_rules
  both_found-Frozen _ _ = search frozen_rules

  pub resolve_hotel-Frozen : (id : String) → Keeps Frozen (resolve_hotel O id)
  unfolding resolve_hotel
  resolve_hotel-Frozen id = search (frozen_rules, both_found-Frozen) depth 8

  pub parse_dt-Frozen : (s : String) → Keeps Frozen (parse_dt O s)
  unfolding parse_dt
  parse_dt-Frozen s = search frozen_rules

  store_hold_quote-Frozen :
      (id : ℕ) (q : Json) (ttl : ℕ) → Keeps Frozen (store_hold_quote O id q ttl)
  unfolding store_hold_quote
  store_hold_quote-Frozen id q ttl = search frozen_rules

  pub keep_quote-Frozen :
      (a : HoldArgs) (resp : Json) (b : BookingReference) → Keeps Frozen (keep_quote O a resp b)
  unfolding keep_quote
  keep_quote-Frozen a resp b = search (frozen_rules, store_hold_quote-Frozen) depth 10

  read_quote-Frozen : (raw : Option String) → Keeps Frozen (read_quote O raw)
  unfolding read_quote
  read_quote-Frozen none = search frozen_rules
  read_quote-Frozen (some raw) = search frozen_rules depth 8

  pub get_hold_quote-Frozen : (id : ℕ) → Keeps Frozen (get_hold_quote O id)
  unfolding get_hold_quote
  get_hold_quote-Frozen id = search (frozen_rules, read_quote-Frozen)

  send_release-Frozen : (b : BookingReference) → Keeps Frozen (send_release O b)
  unfolding send_release
  send_release-Frozen b =
      search (frozen_rules, resolve_hotel-Frozen, from_credential-Frozen, release_hold-Frozen) depth
        8

  pass_over-Frozen : (e : Exn) → Keeps Frozen (pass_over_unavailable O e)
  unfolding pass_over_unavailable
  pass_over-Frozen (hotel_erp_error e) = search (frozen_rules, Keeps-on_unavailable)
  pass_over-Frozen _ = search frozen_rules

  pub release_on_hotel-Frozen : (b : BookingReference) → Keeps Frozen (release_on_hotel O b)
  unfolding release_on_hotel
  release_on_hotel-Frozen b = search (frozen_rules, send_release-Frozen, pass_over-Frozen)

  pub refund_percentage-Frozen : (j : Json) → Keeps Frozen (refund_percentage O j)
  unfolding refund_percentage
  refund_percentage-Frozen (object fs) = search frozen_rules
  refund_percentage-Frozen _ = search frozen_rules
