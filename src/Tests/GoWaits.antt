-- ===== src/Tests/GoWaits.antt =====
-- Engine.WaitGatewaySubscribe of pkg/gateway/engine.go on a store with one stream of two events.
use synclog.Prelude.{◌≡◌, ◌≢◌, refl, true, String, ℕ, List, [], ◌∷◌, some, All}
use synclog.GoMap.{GoMap, get, set, make, string_key}
use synclog.Protocol.Gateway.{GatewaySubscribeRequest}
use synclog.Log.Result.{done}
use synclog.Log.Engine as Log
use synclog.Storage.{Store, new_store}
use synclog.Storage.Events as Events
use synclog.Storage.Events.{put_stream}
use synclog.Gateway.Engine.{resolve_subscriber}
use synclog.Gateway.Waiting.{for_streams, wait_gateway_subscribe}
use synclog.Gateway.Watching.{Seen, Subscribes, wait_gateway_subscribe-Seen}
use synclog.Tests.GoSamples.{sample_store}
use synclog.Tests.GoGateway.{open_gateway, actor, target}

abbrev subscribes : GatewaySubscribeRequest
subscribes = record {
  subscriber_id = "reader";
  targets = target ∷ [];
  batch_limit_per_target = 0;
  max_in_flight_per_target = 0;
  subscription_id = "";
}

abbrev up_to_date : GoMap String ℕ
up_to_date = set "notes/1/#live" 2 (set "notes/1/#draft" 3 make)

abbrev two_streams : List (String × ℕ)
two_streams = ("d", 3) ∷ ("s", 2) ∷ []

waits :
    wait_gateway_subscribe open_gateway true actor (some subscribes) up_to_date sample_store
    ≡ (done (for_streams two_streams), sample_store)
unfolding wait_gateway_subscribe get make set Log.get_head Events.get_head put_stream new_store
waits = refl

wait_gateway_subscribe-Seen_example :
    (true ≡ true)
    × (two_streams ≢ [])
    × All (Seen open_gateway) two_streams
    × ((subscriber_id : String) × (s1 : Store) × (resolve_subscriber open_gateway actor "reader"
            sample_store
          ≡ (done subscriber_id, s1))
        × All (Subscribes open_gateway actor subscriber_id) (target ∷ []))
wait_gateway_subscribe-Seen_example =
    wait_gateway_subscribe-Seen open_gateway true actor subscribes up_to_date sample_store
      sample_store two_streams waits
