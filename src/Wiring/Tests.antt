-- ===== src/Wiring/Tests.antt =====
-- The start of the consumer, where userver's own lists are empty.
use temp_task.Prelude.{[], Str, str, refl}
use mathlib.Core.List.{Memᴰ}
use temp_task.Wiring.Classes.{
  Framework, ping, testsuite_support, dns, tests_control, congestion_control, postgres, mongo,
  secdist, default_secdist_provider, producer_component, consumer_component, event_consumer,
}
use temp_task.Wiring.{Component, Userver, component_list, Starts}
use temp_task.Wiring.Startup.{component_list-Starts, places}

abbrev name_of : Framework → Str
name_of ping = str "handler-ping"
name_of testsuite_support = str "testsuite-support"
name_of dns = str "dns-client"
name_of tests_control = str "tests-control"
name_of congestion_control = str "congestion-control"
name_of postgres = str "postgres"
name_of mongo = str "mongo"
name_of secdist = str "secdist"
name_of default_secdist_provider = str "default-secdist-provider"
name_of producer_component = str "kafka-producer"
name_of consumer_component = str "kafka-consumer"

abbrev bare : Userver
bare = record { minimal_server = []; http_client = []; minimal_grpc_server = []; k_name = name_of }

abbrev consumer : Component
consumer = record { class = event_consumer; name = str "event-consumer" }

consumer-Listed : Memᴰ consumer (component_list bare)
unfolding component_list
consumer-Listed = search (places) depth 60

component_list-Starts_example : Starts bare consumer
component_list-Starts_example = component_list-Starts bare refl refl consumer consumer-Listed
