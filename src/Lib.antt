-- ===== src/Lib.antt =====
-- A model of the Rancher operator: the Kubernetes controllers that probe a target cluster and install
-- cert-manager and an ingress controller on it, with the Helm code that they call.
--
-- The parts. The reconciler of internal/controller/targetcluster_controller.go reads a TargetCluster
-- and the Secret with its kubeconfig, asks that cluster for its version and its nodes, and writes
-- the status. The reconciler of internal/controller/clusterprerequisites_controller.go waits for that
-- status, resolves the same kubeconfig, and brings three components to the cluster through
-- internal/helm: pullsecret.go puts the registry's credentials there, installer.go pulls a chart and
-- installs or upgrades a release, getter.go turns a kubeconfig into clients. The two meet in the
-- status of the TargetCluster only (Controller.ClusterPrerequisites.Pipeline). The reconciler of
-- internal/controller/ranchermanager_controller.go does nothing yet. The process of cmd/main.go sets
-- the reconcilers up with one manager and runs it.
--
-- The files.
--   Common        texts as lists of bytes, errors, results, tests, int32; what the code uses of the
--                 packages strings and strconv
--   Api           the structs and constants of api/v1alpha1, one file per source file; Api.Meta has
--                 what is read of Kubernetes' own types; Api.DeepCopy has zz_generated.deepcopy.go,
--                 Api.Defaults the defaults in the markers
--   Runtime       how programs run: Types (what is seen of third-party types), Calls (every call to
--                 the outside, with its answer), Externals (the answers), Programs (early returns),
--                 Rules and Pairs (proof rules for one run and for two), Views (parts of the log)
--   Helm          internal/helm: Getter, PullSecret with Base64 and Json (PullSecret.Reader and
--                 Json.Reader read their texts, independently of the printers), Installer,
--                 Repository (the classic chart repositories); Confinement is about
--                 all of it: what it leaves alone; Server is the target cluster as an abstract
--                 state, with what publishing a Secret and deploying a release do to it
--   Controller    internal/controller: Outcome, Conditions, TargetCluster, Components (the component
--                 functions of clusterprerequisites_controller.go), ClusterPrerequisites,
--                 RancherManager, and Permissions, the RBAC markers above the reconcilers
--   Manager       cmd/main.go behind the parsing of the flags
--   TestUtils     test/utils/utils.go, without the functions that only run a command
--   Tests         runs at concrete inputs, in a small world
-- The children of a module have the proofs about it, named for what they prove. A function of the
-- source has its name here in snake case; what follows a point of a long function is a definition of
-- its own: reconcile_found is Reconcile behind the lookup of the resource, probe and available are
-- its ends, reconcile_components is what ClusterPrerequisites does with an open cluster.
--
-- How code becomes definitions. A function with effects is a program of type M A: from the log of
-- the calls made so far to a result and a longer log, newest call first. The record Env has all
-- code that is not in the repository (the API clients, Helm, the registry, strconv.Quote), and an
-- answer of the outside is a function of the log, so that two reads may differ and time may pass.
-- Nothing is assumed of Env but where a theorem says so: Controller.Conditions.SetsConditions is
-- the documented behaviour of meta.SetStatusCondition,
-- Controller.TargetCluster.Convergence.IsSteady answers to the reads of one reconciler that do not
-- change, Helm.Server.Serves a target cluster that keeps what it is given and takes every valid
-- write that its state allows, but no change of a Secret's type, and with it the charts and values
-- that Helm brings about there, Controller.Components.Deployment.Supplies a registry that has
-- a chart, and Api.DeepCopy.Laws.CopiesDeeply the deep copies of apimachinery's types. An early
-- return is the exit of a Flow; a Go error is an Error with the class that apierrors sees; an
-- object that the code mutates is a record that is passed on, since no two pointers to it are
-- alive. A nil pointer is none. Where aliasing is the point, in Api.DeepCopy, a struct that holds
-- pointers or slices has a second record, Stored and its name, in which each pointer and each array
-- has an address, and the functions take the next free address and return it. A generation, an
-- int64 that the API server counts up, is a natural number; the number of nodes is reduced to int32
-- as the code does. Durations are in nanoseconds. The only fuel is in the decimal digits of a
-- number, one more than the number, while each round divides it by ten. Strings are printed and
-- escaped as encoding/json does, byte by byte.
--
-- Not modelled: the registration of schemes, the parsing of flags, and logging; the functions of
-- test/utils that run a command; tests, manifests and scripts. Other writers of a target cluster are
-- left out in Helm.Server only, which has the namespaces, the operator's own Secrets
-- and the releases, and neither the Secrets in which Helm records releases nor what a chart installs.
pub mod Common
pub mod Api
pub mod Runtime
pub mod Controller
pub mod Helm
pub mod Manager
pub mod TestUtils
pub mod Tests
