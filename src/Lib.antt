-- ===== src/Lib.antt =====
-- The locations operator: location classes, readiness, the publishing of locations to a federation hub,
-- the operator's start and configuration, and the identity of a cell.
--
-- The operator runs up to four controllers over one control plane. The class controller holds a
-- finalizer on each LocationClass while Locations name it. The readiness controller reports Ready on
-- Locations, and a fourth one Accepted on classes. The publisher copies each Location as a
-- ServingLocation with a propagation policy to the hub, and removes the copy, under a guard, once the
-- Location is gone. A cell reads the copies that reach it to find the location that it serves.
--
-- Api: api/v1alpha1, the kinds with the fields that the code reads or writes.
-- Config: internal/config/config.go and zz_generated.defaults.go. Config.Defaults has the SetDefaults
-- functions, Config.Validate the Validate functions, Config.Connect the choice of a connection.
-- Metrics: internal/controller/metrics.go, the gauges, and the calls that the controllers make.
-- Publisher: internal/controller/location_publisher_controller.go. Client has the clients of both
-- clusters as parameters; Ownership, Policy, Hub, Guard, Publish, Removal and Reconcile have its
-- functions under their names in snake_case, from readPublished to Reconcile. A long function is cut
-- where Go returns early: publish is publish, publish_with_city, publish_owned and write_copy, and
-- remove is remove, remove_published, remove_pruned, remove_guarded and delete_copy.
-- Class: internal/controller/location_class_controller.go.
-- Wiring: the four SetupWithManager functions of internal/controller, as Setup, with the watches and
-- the defaults that they hand to the manager; Concerns says which changes ask for which runs.
-- Readiness: internal/controller/location_readiness_controller.go, with the readiness controller in
-- Evaluate and Report, and the controller that accepts classes in Accepted.
-- Deepcopy: the generated zz_generated.deepcopy.go of api/v1alpha1 (Kinds) and internal/config
-- (Operator), over a Store of the cells that pointers, maps and slices point to. Each has the DeepCopy
-- of the structs inside.
-- Operator: cmd/locations/cmd/operator.go, RunE from the flags to the running manager.
-- Identity: pkg/locationidentity/identity.go.
-- Prelude: names of the libraries, lists and integers over the native numbers, the Go maps and text
-- functions that the code calls, and the actions that the controllers are written in.
--
-- A controller is an action (Prelude.Effect): a function of the state of the outside world to an
-- answer or an error, the next state, and the list of the calls that were made, each with the answer
-- it got. The clients, the clock, the JSON decoder, controllerutil, SetStatusCondition, client-go and
-- the manager are fields of a record Env for each component, so every theorem is for every client,
-- one that fails or answers differently at each call included. What a run does is stated on its calls:
-- Justified J [] calls says that J holds of each call and the calls before it, the latest first
-- (Prelude.Trace). Finalizer, Claimed, Adopted, Enabled, Deletion and Writing name what their calls
-- need. Publisher.Outcome, Class.Outcome, Readiness.Outcome and Readiness.Accepting name the ways in
-- which a run ends.
--
-- What a run leaves behind is stated on a view of the control planes (Publisher.World, Class.World): a
-- record World says, as named hypotheses, that each call of a client does to the view what it is
-- documented to do and succeeds. The function next of Publisher.World.Spec and of Class.World is the
-- specification of one run on views. In both, an object with finalizers outlives a delete of it, until
-- the last finalizer is taken away; an apply to the hub leaves the entries of a copy's topology that
-- other field managers own, since the field is a granular map. Takes (Prelude.Steps) is the logic in which the actions are
-- proved against it, and Step and Reaches or Keeps are runs interleaved with changes by others.
--
-- Loops are recursion on lists, so there is no fuel. A Go map is a list of pairs of which the first
-- under a key counts, and a nil map the empty list; its order of iteration does not matter to the
-- loops modelled. A time is its Unix seconds and a duration its nanoseconds as an integer. A float32
-- is its 32 bits. TrimSpace and strconv.Quote are on the characters of native strings; which
-- characters above U+00FF are printable is a parameter.
--
-- Not modelled: the builder of controller-runtime; logging; the deep copies of the list kinds; the cobra
-- command and its flags of zap; the TLS certificate callback, of which only its presence is kept; RBAC
-- and the manifests under config.
pub mod Prelude
pub mod Api
pub mod Config
pub mod Metrics
pub mod Publisher
pub mod Class
pub mod Readiness
pub mod Identity
pub mod Operator
pub mod Wiring
pub mod Deepcopy
mod Tests
