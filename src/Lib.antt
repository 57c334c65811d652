-- ===== src/Lib.antt =====
-- Akri finds devices at the edge of a Kubernetes cluster and lends them to Pods. An agent on each
-- node discovers devices, keeps an Instance object for each of them in the cluster, and is the
-- kubelet's device plugin for it: the slots of an Instance are what Pods ask for. A controller
-- watches the Instances, starts and removes the broker Pods that use them, keeps services for these
-- Pods, and cleans the Instances of nodes that have vanished. A webhook validates Configurations.
-- The parts share no memory; they meet in the cluster's objects, above all in the map
-- `device_usage` of an Instance, from its slots to the nodes that hold them.
--
-- The files and the code they model:
--   Base and its children: results, the state monad of the asynchronous functions, hash maps as
--     association lists, and lemmas on them.
--   Kube/Types: shared/src/akri/instance.rs, shared/src/akri/configuration.rs, and the Kubernetes
--     objects as far as the code reads them.
--   Kube/Api: the trait KubeInterface of shared/src/k8s/mod.rs.
--   Kube/Pods: names and specifications of Pods, shared/src/k8s/pod.rs.
--   Kube/Services: names, contents and owners of services, shared/src/k8s/service.rs.
--   Kube/Retry: the retry loops of node_watcher.rs, pod_watcher.rs and device_plugin_service.rs.
--   Kube/Client: KubeImpl of shared/src/k8s/mod.rs, with the requests of pod.rs, service.rs and
--     instance.rs over the answers of the API server.
--   Controller/PodAction: controller/src/util/pod_action.rs.
--   Controller/InstanceAction: controller/src/util/instance_action.rs; `nodes_to_act_on` is a map
--     from nodes to what is done there, Plan and Entries say what stands in it, Effects what
--     follows.
--   Controller/NodeWatcher: controller/src/util/node_watcher.rs.
--   Controller/PodServices, Controller/PodWatcher: controller/src/util/pod_watcher.rs, what is
--     done for a Pod that runs or has stopped, and the state machine over the events of Pods.
--   Webhook: webhooks/validating/configuration/src/main.rs, over JSON values.
--   Agent/DevicePlugin: agent/src/util/device_plugin_service.rs; Allocation claims slots, Devices
--     is what is advertised to the kubelet, Creation enters the node in the Instance (Entries says
--     what may be sent for that), Watch is the task that keeps the kubelet informed, Building puts a
--     service together and registers it. Race is the contest of two nodes for a slot, with
--     update_instance of shared/src/akri/instance.rs, request by request; Race/Attempts relates it
--     to the loop of Allocation.
--   Agent/SlotReconciliation: agent/src/util/slot_reconciliation.rs, one run of it, and
--     agent/src/util/crictl_containers.rs (Containers).
--   Agent/Connectivity: agent/src/util/config_action.rs, what follows a discovery.
--   Agent/Configurations: the rest of agent/src/util/config_action.rs; Deletion, Cleared and Outcome
--     are about the end of a Configuration, Periodic is the loop of discoveries, and Handshake the
--     two tasks that meet when a Configuration is deleted, as steps that are interleaved.
--   Agent/Handlers: the choice of a handler in agent/src/protocols/mod.rs, and what the
--     discovery_handler.rs of each protocol discovers.
--   Agent/Udev, Agent/Opcua, Agent/Onvif: the choice of devices in
--     agent/src/protocols/udev/discovery_impl.rs, opcua/discovery_impl.rs and
--     onvif/discovery_handler.rs; Agent/Onvif/Queries: the questions to a camera in
--     shared/src/onvif/mod.rs.
--   Tests: runs at concrete inputs.
-- Functions, fields and constants keep the names of the source.
--
-- The cluster is not part of the program. An oracle, the record KubeInterface, answers each call,
-- and its answer may depend on the whole trace of the calls so far; so each statement holds for
-- every behaviour of the API server and of its other clients between two calls. A function that
-- calls the cluster is a function on traces, which appends each call with its answer; messages
-- between tasks and metrics are entries of the trace too. `checked_add_signed` of chrono, and of
-- serde_json the parsers, the numbers and the writing of a Configuration, are parameters; so are
-- the answers of libudev, of the OPC UA client and of cameras, regular expressions, and the tests
-- of texts.
--
-- The map of Instances is shared by tasks. In the watch of an Instance it is read where the code locks
-- it, and what the other tasks do to it in between is part of a turn; the sweep after a discovery
-- (Agent/Connectivity) assumes that no other task changes it during the call.
--
-- Bounds: the retry loops run on the five tries of MAX_INSTANCE_UPDATE_TRIES, which are the
-- source's own; all other loops are over finite lists, an endless watch is a list of its events,
-- and an endless task is a list of its rounds or turns, with what each of them is answered. Fuel is
-- used once, for the test of a new server in Building: eleven attempts are enough, since the test
-- lasts for ten seconds and a failed attempt waits for one. Times are numbers. The order of a hash
-- map's entries is the order of their insertion.
--
-- Not modelled: log lines; sockets, gRPC registration and serving; the sending of the requests to
-- the API server; the panics of a channel without a receiver, but in the end of a Configuration
-- and of a watch; the entry points; the generated protocol code; the call of crictl; the streams of
-- the informers; the metrics of the discoveries; the sockets, parsers and device libraries of the
-- discovery handlers, with the multicast discovery of cameras; the HTTP server of the webhook.
pub mod Base
pub mod Kube
pub mod Controller
pub mod Agent
pub mod Webhook
mod Tests
