-- ===== src/Lib.antt =====
-- Konductor is an operator for synchronisation primitives in Kubernetes. Each primitive (mutex,
-- rwmutex, semaphore, barrier, lease, gate, wait group, once) is a kind of objects (api/v1) that
-- the API server stores. A reconciler of each kind (controllers) reads the object and what belongs
-- to it and stores the status that follows; the SDK (sdk/go) reads the objects, sends updates of
-- their status or creates further objects (permits, arrivals, lease requests), and polls until a
-- status is as it waits for. All of them meet only in the API server, which refuses an update of an
-- object that somebody has updated since it was read.
--
-- Prelude holds signed integers, int32, Boolean tests, lists and the actions that read and change a
-- world. Api has the kinds: Api.Meta the metadata and times, Api.Locks mutex, rwmutex and once,
-- Api.Counters semaphore, permit, barrier, arrival and wait group, Api.Leases, Api.Gates,
-- Api.Errors the errors as the code tells them apart, and Api.Schema what the CRDs ask of an
-- object.
--
-- Client is the Kubernetes client of controller-runtime, which the program calls: a parameter, one
-- handle for each kind. Client.Server states what the API server documents of reads and updates,
-- Server.Collection of creating and listing, Server.Validation of schemas; Server.Availability says
-- what it is for a server to answer. `Client W` is over a type W of worlds, and each call takes a
-- world to its answer and the next world, so that other processes may act in between.
--
-- Controllers has one module for each reconciler; its `reconcile` is the method `Reconcile` of the
-- file that the module names, and `settle` the part after the reads. Operator is cmd/main.go: its
-- start, and which reconciler answers a request. Log lines are left out, and so is the registration
-- with the framework.
--
-- Sdk.Host is what an SDK call uses of its surroundings; `wait.ExponentialBackoff` is a parameter
-- there, with what it documents as `BacksOff`. Sdk.Wait is sdk/go/client/wait.go, Sdk.Retry
-- retry.go beside it, Sdk.Options the options of sdk/go/client/client.go and Sdk.Client the rest of
-- that file. Sdk.Mutex, Sdk.RwMutex, Sdk.Semaphore, Sdk.Barrier, Sdk.Gate, Sdk.WaitGroup, Sdk.Once
-- and Sdk.Lease are the files of sdk/go/mutex, rwmutex, semaphore, barrier, gate, waitgroup, once
-- and lease, one function for each function of the file; what stands between the read and the
-- update of a closure is a function of its own.
--
-- Client.Race is a system of any number of processes on one object: each step is one call of the
-- API server, and a process sends at any later time what it computed from what it has read.
-- Race.Atomic and Race.Serial have what holds for all kinds, and Race.Refinement that a race
-- implements an abstract machine. Sdk.Mutex.Exclusion, Sdk.RwMutex.Exclusion (whose readers are a
-- quotient that forgets their order), Sdk.WaitGroup.Counting and Sdk.Once.AtMostOnce apply them to
-- the processes of the SDK together with the operator: their `plan` is the closure of the SDK, or
-- the change that the reconciler makes. The object is not deleted during a race.
--
-- Sdk.Mutex.Progress and Scoped, Sdk.RwMutex.Progress, Sdk.Once.Progress and Sdk.WaitGroup.Progress
-- are about calls that nothing disturbs (`Undisturbed` of Sdk.Wait.Progress): they do return, and
-- with success.
--
-- Sdk.Barrier.Opening, Sdk.Gate.Closing, Sdk.Gate.Refusal and Sdk.Schema are about the SDK together
-- with the reconcilers and the schemas; Controllers.Semaphore.Admission and Overdraft about the
-- permits that the SDK creates.
--
-- Cli is koncli, one module for each file of cli: a command is the body of its `RunE`, a function
-- from its arguments and flags to an action that gives the lines that it logs and its error
-- (Cli.Output). Cli.Setup is what main.go does before a command, Cli.Operator the probes of
-- operator.go, over a record of what net, net/url and net/http do.
--
-- Memory is a server in memory with which the theorems are tried; it stands for no code. Examples
-- has the tests, and each theorem at a concrete input.
--
-- Times are whole nanoseconds and do not overflow. The loop of `calculateBackoffSteps` runs on
-- fuel, one more than the timeout in nanoseconds, since each round adds a delay of at least one.
-- The loop of `WaitForConditions` runs on fuel as well, a round for each: without a timeout it need
-- not end, and with one, two more than it has whole seconds are enough. A panic is an error value,
-- after which the commands stop. Not modelled are cobra, viper and zap, which cli only configures
-- (flags with their defaults and help texts), the aliases of sdk/go/konductor.go, the generated
-- deep copies, the samples and the test support.
pub mod Api
pub mod Cli
pub mod Client
pub mod Controllers
pub mod Examples
pub mod Memory
pub mod Operator
pub mod Prelude
pub mod Sdk
