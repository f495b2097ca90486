-- ===== src/Lib.antt =====
-- The events service: protobuf events that travel over MQTT to the subscribers of an RPC service,
-- and automations, which are JavaScript bundles that run in engines of their own.
--
-- The parts and where they are modelled:
-- - Chan: the channels of the subscribers (internal/broker/subscriber.go, broker.go). A channel is
--   a bounded buffer with the entries taken out so far; `send_or_timeout` is the select of
--   handleMessage, `send` the plain send of Subscribe.
-- - Broker: internal/broker/broker.go. The record Broker is the struct less its locks; World adds
--   the channels, the calls of the MQTT client so far, and the goroutines that have not run yet.
--   Broker itself has HandleOnConnect and Subscribe; Broker/Dispatch handleMessage; Broker/Removal
--   UnsubscribeAll with the shifted slice of its inner loop; Broker/System the goroutines, Publish,
--   the end of a subscriber in its two steps, and a machine whose environment picks each step. A handler is one
--   step, since it holds the broker's lock; goroutines are tasks that run in any order.
--   Broker/Contract states what the broker promises, as changes of an abstract board of interests
--   that knows no slices, buffers or goroutines; Broker/Blocking is blocking_client.go with
--   NewMQTTBroker. The other modules below Broker are proofs.
-- - Service: internal/service/events_service.go and the loops of internal/broker/subscriber.go.
--   The receive loop is on fuel, one unit for each message and one for the end of the stream.
-- - Modules: internal/automation/modules/registry.go. Engine: internal/automation/engine.go, with
--   the configuration of internal/config/config.go and modules/module.go; Engine/Running has Run
--   and RunScript.
-- - Bundle: internal/automation/bundle/bundle.go. Bundle itself has Prepare and the logs, with the
--   mutex; Bundle/Load has Load, on fuel for the nested directories; Bundle/Discover has Discover,
--   with the fuel of each Load. One round more than directories are nested deep is enough.
-- - FilePath and Archive: internal/automation/bundle/unpack.go. A rooted path is the list of its
--   elements, a file system a function from paths; Archive/Zip has unpackZip.
-- - Connect: internal/automation/modules/connect/module.go. Connect itself has the endpoint and the
--   request's header, Connect/Messages ObjectToProto and ConvertProtoMessage, Connect/Client the
--   method do with the request that it sends, and Connect/Services NewModuleInstance and
--   makeServiceClient.
-- - Core: internal/automation/core.go. An EventLoop is the queue of the callbacks that were handed to
--   it and the list of those that it has called; `in_operation` takes whether the loop has called
--   the callback by the time that the closure of op.Wrap reads the result. Core/Publications has
--   publish.
-- - Encoding: internal/automation/modules/encoding, and internal/automation/common/error.go.
-- - Files: internal/automation/modules/fs/fs.go, over os.DirFS.
-- - Templates: internal/automation/modules/template. Natives: the modules path, timeutil and fetch,
--   and the registration of all native modules by the imports of main. Cli: cmds/eventcli.
-- - Startup: main of cmds/events-service/main.go, as the calls that may end the process in their
--   order, with the loop over the bundles between them. Startup/Configuration: LoadConfig of
--   internal/config/config.go, over the tags of Config.
-- - Codec: internal/codec/json.go. Values: internal/automation/common/goja.go and utils.go.
-- - Base and Text: shared names, dictionaries, outcomes, errors and strings. Examples: concrete runs.
--
-- How they interact: Startup prepares the bundles that Bundle/Discover found, which unpacks with
-- Archive; Bundle makes an Engine, which enables the modules of the registry of Modules, the clients
-- of Connect/Services among them; Service and Core call Subscribe and Publish of the broker.
--
-- How code ends: Outcome tells a value, a run-time panic and waiting for ever apart; Try is for what
-- returns an error or throws one into a script. A Go map is an association list whose order stands
-- for the order in which `range` visits it.
--
-- What other packages do is an argument: the answers of the MQTT client, package proto and
-- protojson, descriptors, discovery, net/http, the cron scheduler, the operations service, the
-- transformers of golang.org/x/text, what a module of the registry makes, what is read from an
-- archive or from vars.json, whether a script runs, what the calls of main return. Theorems that need
-- documented behaviour of these (proto.Clone copies, Unmarshal reads back what Marshal wrote,
-- transform.String resets, envconfig reads the tags, anypb.New names its message) state it as a
-- hypothesis.
--
-- Not modelled: main of cmds/eventcli and the flags of its commands, which only wire a library, and
-- errors.go of the bundles, whose three values are constructors of LoadError and PrepareError;
-- logging, contexts and time.
-- The MQTT client answers every call: a token that never completes, for which blocking_client.go would
-- wait, is not modelled in the machine of the broker.
-- What a script does while it runs, the messages that it prints among it, is left out of Prepare.
pub mod Archive
pub mod Base
pub mod Broker
pub mod Bundle
pub mod Chan
pub mod Cli
pub mod Codec
pub mod Connect
pub mod Core
pub mod Encoding
pub mod Engine
pub mod Examples
pub mod FilePath
pub mod Files
pub mod Modules
pub mod Natives
pub mod Service
pub mod Startup
pub mod Templates
pub mod Text
pub mod Values
