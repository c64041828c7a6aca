-- ===== src/Webhook/Tests.antt =====
-- The theorems on the webhook endpoint at concrete deliveries.
use hotels_aggregator.Prelude.{◌≡◌, ◌↔◌, ◌⊎◌, some}
use hotels_aggregator.Prelude.Tests.{nat_eq}
use hotels_aggregator.History.{session}
use hotels_aggregator.Sandbox.{sandbox}
use hotels_aggregator.History.Tests.{start_world, index, contains, delivery}
use hotels_aggregator.Webhook.Verify.{verify_webhook_signature, accepted}
use hotels_aggregator.Webhook.Genuine.{Genuine, verify-Genuine}
use hotels_aggregator.Webhook.Receiver.{receive_webhook_event}
use hotels_aggregator.Webhook.Safety.{receive-Syncs}
use hotels_aggregator.Webhook.Admission.{Admitted, receive-Admitted}
use hotels_aggregator.Sync.Evolves.{Syncs}

verify-Genuine_example :
    (verify_webhook_signature sandbox "secret" "{}" (some "sha256=secret") (some "1") 200
      ≡ accepted)
    ↔ Genuine sandbox "secret" "{}" (some "sha256=secret") (some "1") 200
verify-Genuine_example = verify-Genuine sandbox "secret" "{}" 200 (some "sha256=secret") (some "1")

receive-Syncs_example :
    Syncs start_world.durable
      (session (receive_webhook_event sandbox index contains "dev" delivery) start_world).durable
receive-Syncs_example = receive-Syncs sandbox index contains "dev" delivery start_world

receive-Admitted_example :
    ((session (receive_webhook_event sandbox index contains "dev" delivery) start_world).durable
      ≡ start_world.durable)
    ⊎ Admitted sandbox "dev" delivery start_world.outside start_world.durable
receive-Admitted_example = receive-Admitted sandbox index contains "dev" delivery start_world
