-- ===== src/Broker/Topic.antt =====
-- internal/broker/broker.go, makeTopic and the keys of the broker's maps.
use Prim.Native.String.{◌++◌ as append_text, count as length_text}
use text.Mathlib.TextLemmas.{length-append}
use events_service.Base.{String, ◌≡◌, ap, ◌≢◌, arith}
use events_service.Text.Laws.{trim_prefix-append}
use events_service.Broker.{google_prefix, topic_root, make_topic}

pub make_topic-prefixed :
    (u : String) → make_topic (append_text google_prefix u) ≡ append_text topic_root u
unfolding make_topic
make_topic-prefixed u = ap (append_text topic_root) (trim_prefix-append google_prefix u)

pub prefixed-ne : (u : String) → append_text google_prefix u ≢ u
prefixed-ne u e = omega (arith, ap length_text e, length-append google_prefix u)
