-- ===== src/Broker/Blocking.antt =====
-- internal/broker/blocking_client.go, and NewMQTTBroker of broker.go: the calls of the MQTT client,
-- each with a wait for its token. The client itself is another package's.
use events_service.Base.{
  ℕ, List, Bool, String, Option, none, some, Outcome, done, blocked, ◌>>=◌, if◌then◌else◌,
}
use events_service.Base.Try.{Try, returned, thrown}
use events_service.Broker.{Broker, Call, subscribe_call, unsubscribe_call, publish_call, new_broker}

-- mqtt.Token: whether it completes, and its error
pub record Token (E : Type 0) : Type 0 where
  pub completes : Bool
  pub error : Option E

-- mqtt.Client: the tokens of its calls. The quality of service is 0 in every call of the broker.
pub record MqttClient (E : Type 0) : Type 0 where
  pub connect : Token E
  pub subscribe : String → ℕ → Token E
  pub publish : String → ℕ → Bool → List ℕ → Token E
  pub unsubscribe : List String → Token E

module _ {E : Type 0} where
  -- t.Wait(), then t.Error()
  unfoldable pub wait : Token E → Outcome (Option E)
  wait t = if t.completes then done t.error else blocked

  -- blockingClient.Subscribe
  unfoldable pub blocking_subscribe : MqttClient E → String → ℕ → Outcome (Option E)
  unfolding wait
  blocking_subscribe conn topic qos = wait (conn.subscribe topic qos)

  -- blockingClient.Publish
  unfoldable pub blocking_publish : MqttClient E → String → ℕ → Bool → List ℕ → Outcome (Option E)
  unfolding wait
  blocking_publish conn topic qos retained payload = wait (conn.publish topic qos retained payload)

  -- blockingClient.Unsubscribe
  unfoldable pub blocking_unsubscribe : MqttClient E → List String → Outcome (Option E)
  unfolding wait
  blocking_unsubscribe conn topics = wait (conn.unsubscribe topics)

  -- A call of the broker through its connection.
  unfoldable pub call_through : MqttClient E → Call → Outcome (Option E)
  unfolding blocking_subscribe blocking_publish blocking_unsubscribe
  call_through conn (subscribe_call topic) = blocking_subscribe conn topic 0
  call_through conn (unsubscribe_call topics) = blocking_unsubscribe conn topics
  call_through conn (publish_call topic retained payload) =
      blocking_publish conn topic 0 retained payload

  -- NewMQTTBroker: the broker has no connection yet; HandleOnConnect, which the client calls once
  -- it is connected, gives it one.
  unfoldable pub new_mqtt_broker : MqttClient E → Outcome (Try E Broker)
  unfolding wait
  new_mqtt_broker cli = do
    err ← wait cli.connect
    done (elim err [ some e ↦ thrown e | none ↦ returned new_broker ])
