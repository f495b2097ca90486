-- ===== src/Broker/System/Reconnect.antt =====
-- internal/broker/broker.go, HandleOnConnect: the topics of the broker on a new MQTT connection.
use events_service.Base.{
  ℕ, List, [], ◌∷◌, ◌++◌, String, Bool, true, false, not, ◌&&◌, ◌||◌, some, ◌≡◌, refl, arith,
  lookup, ◌==◌, nat_eq, string_eq, contains, if◌then◌else◌, eq_refl, eq_iff, nat_eqb_iff, ◌⊎◌, inl,
  inr, ◌∙◌,
}
use events_service.Broker.{
  World, Env, Entry, Call, subscribe_call, unsubscribe_call, publish_call, make_topic, perform,
  resubscribe, handle_on_connect,
}

-- Whether a client is subscribed to a topic after one more call, as MQTT has it: an accepted
-- SUBSCRIBE starts a subscription and an accepted UNSUBSCRIBE ends it.
abbrev pub after_call : String → Bool → Call → Bool
after_call topic live (subscribe_call t) = t == topic || live
after_call topic live (unsubscribe_call ts) = not (contains topic ts) && live
after_call topic live (publish_call t r payload) = live

abbrev pub after_entry : ℕ → String → Bool → Entry → Bool
after_entry client topic live e =
    if e.client == client && e.accepted then after_call topic live e.call else live

pub subscribed_after : ℕ → String → Bool → List Entry → Bool
subscribed_after client topic live [] = live
subscribed_after client topic live (e ∷ es) =
    subscribed_after client topic (after_entry client topic live e) es

-- Whether the calls so far leave the client subscribed to the topic.
pub is_subscribed : ℕ → String → List Entry → Bool
is_subscribed client topic calls = subscribed_after client topic false calls

subscribed_after-append :
    (client : ℕ) (topic : String) (live : Bool) (es : List Entry) (e : Entry)
    → subscribed_after client topic live (es ++ e ∷ [])
      ≡ after_entry client topic (subscribed_after client topic live es) e
unfolding subscribed_after
subscribed_after-append client topic live [] e = refl
subscribed_after-append client topic live (x ∷ es) e =
    subscribed_after-append client topic (after_entry client topic live x) es e

-- One more call moves the subscription as MQTT has it.
pub is_subscribed-perform :
    (env : Env) (w : World) (client : ℕ) (call : Call) (topic : String)
    → env.accepts w.calls client call ≡ true
    → is_subscribed client topic (perform env w client call).0.calls
      ≡ after_call topic (is_subscribed client topic w.calls) call
unfolding is_subscribed perform
is_subscribed-perform env w client call topic ok =
    subscribed_after-append client topic false w.calls _
    ∙ rw ((nat_eqb_iff client client).1 refl, ok)

resubscribe_live :
    (env : Env) (client : ℕ) (url : String) (ts : List (String × Unit {0})) (w : World)
    → ((es : List Entry) (call : Call) → env.accepts es client call ≡ true)
    → (lookup url ts ≡ some tt) ⊎ (is_subscribed client (make_topic url) w.calls ≡ true)
    → is_subscribed client (make_topic url) (resubscribe env w client ts).calls ≡ true
unfolding resubscribe lookup
resubscribe_live env client url [] w ok (inl h) = cc
resubscribe_live env client url [] w ok (inr h) = h
resubscribe_live env client url ((t, _) ∷ ts) w ok h =
    resubscribe_live env client url ts (perform env w client (subscribe_call (make_topic t))).0 ok (
      ground (
        arith,
        is_subscribed-perform env w client (subscribe_call (make_topic t)) (make_topic url)
            (ok _ _),
        eq_iff t url,
        eq_refl (make_topic url),
      ))

-- On a new connection that accepts what it is asked, HandleOnConnect subscribes to the MQTT topic
-- of every type URL in the broker's `topics`.
pub handle_on_connect-is_subscribed :
    (env : Env) (w : World) (client : ℕ) (url : String)
    → ((es : List Entry) (call : Call) → env.accepts es client call ≡ true)
    → lookup url w.broker.topics ≡ some tt
    → is_subscribed client (make_topic url) (handle_on_connect env w client).calls ≡ true
unfolding handle_on_connect
handle_on_connect-is_subscribed env w client url ok h =
    resubscribe_live env client url w.broker.topics _ ok (inl h)
