-- ===== src/Lib.antt =====
-- go-lxc, the Go bindings of liblxc: containers are created, started, frozen, attached to and torn
-- down by the C library, and the package adds guards, error values, text conversions and memory
-- for C's arrays.
--
-- The parts. A `Container` (container.go) holds a pointer to the library's `struct lxc_container`;
-- each method tests the pointer, asks `makeSure` for the conditions that its flags name, makes C's
-- arguments, calls a wrapper of lxc-binding.c and turns what comes back into Go values.
-- lxc-binding.go has the functions of the package, type.go, options.go and error.go the values,
-- util.go the arrays of C strings.
--
-- The files.
-- Liblxc, Liblxc/Laws: the library and the host, which the bindings only call: parameters over a
-- state `World` and pointers `Ptr`, with the laws that the life cycle assumes of them. Floats:
-- float64, as a parameter; the tables of unicode are one of Types/ByteSize.
-- Exec: how a Go function ends: values with a nil error, values with an error, or a fault (an
-- index out of range, a null pointer that C follows).
-- Types and below: type.go. Errors: error.go. Options: options.go. Memory: util.go. Binding:
-- lxc-binding.c and lxc-binding.h, the wrappers that do more than call a member.
-- Memory/Arrays: the arrays that the package makes and frees. Memory/Returned: those that the
-- library hands over, with Container/Network/Returned for the methods that take them.
-- Container/Arrays: the memory that the methods' arrays take and give back; the heap here holds
-- arrays, their strings, the working directory of an attach, and the template and the backend of
-- Create. Container/Create/Specs: the options of a backend, whose strings are freed before the
-- library reads them. Container/Attach/Numbers: the conversions to C's types of 32 bits.
-- Container/Attach/Shell: the wait for a shell. Container: `Container`, `makeSure` and what
-- methods share, with the guards in Container/Guards. The methods of container.go are below it by
-- what they are for: Handle (Release, State, InitPid, ...), Lifecycle (Freeze to Wait), Create,
-- Config, Snapshots, Cgroups (limits and usage), Network, Execute, Devices (with Checkpoint,
-- Restore and Migrate), Attach (consoles and commands). A Go name such as StartWithArgs is
-- `start_with_args` here.
-- Container/Operations: the methods that change a state as one alphabet of requests, with their
-- ends on a released container and the state after a refusal below it. Container/Effects: what a
-- method may do to the state, by how it is built. Container/Lifecycle/Phases: the life cycle as a
-- diagram.
-- Locking: the lock `mu`, a sync.RWMutex, and goroutines that call methods under it, as a step
-- relation, with mutual exclusion, the serial order, atomic readers and progress below it.
-- Container/Calls: the methods with the lock that each takes; its children say what may be
-- assigned under which lock, Container/Calls/Linear what goroutines come to that call the methods
-- which have the lock alone and those which only look, and Container/Calls/Unlocked is about
-- ErrorNum, which takes none.
-- Global: lxc-binding.go. Examples: the main functions of examples, in Commands (one or two
-- methods that change something), Reading (programs that only look, or go through all containers)
-- and Settings (the others); Exit and Looking (for stats and list_keys) say how they end;
-- Concurrent has the goroutines of concurrent_*, Stress those of concurrent_stress, in their modes
-- and iterations, and Pipes main and the two goroutines of attach_with_pipes, with the variable
-- that they share.
-- Base: the shared helpers, among them Go's strings as code points, C's strings up to the first
-- NUL, decimal numbers and paths. Tests: a small library to run the theorems on.
--
-- Bounds and fuel. Numbers of type int are read up to 2^63 and C's int where the source tests it;
-- counters that do not overflow in use are natural numbers. Seconds are converted to C.int, which
-- wraps, and a list of snapshots has at most 2^26 - 1. The integers of the attach and console
-- options are converted to C's types of 32 bits, which wrap. An array that the library hands over
-- has at most 2^29 - 1 strings, the length of the array type that convertNArgs uses. Two loops run
-- on fuel. `wait_loop` has one unit for a round: each round sleeps a second, so the seconds of the
-- timeout and one more round are enough, and a WaitIPAddresses among goroutines has so many.
-- `wait_round` has one for a call of waitpid: the library's parameter `wait_rounds` is how many it
-- may take, and more than the number of times that waitpid comes back early are enough. Other
-- loops are structural.
--
-- Goroutines. A method's body may be cut into steps anywhere; what is assumed of a cut is that the
-- steps together do what the method does, and that a step of a method which shares the lock
-- assigns no field of the Container. In Container/Calls/Linear nothing is assumed of the steps of
-- a method but what they do together; the methods that only look have bodies made of steps that
-- cannot write. Other containers and processes are not among the goroutines. In
-- Examples/Concurrent and Examples/Stress each goroutine has its own Container, and a method is
-- one step.
--
-- Not modelled. The string that fmt makes of an error is kept as the constant and the name.
-- Strings are valid UTF-8. The rounding of float64 and of Seconds, the labels of os.File and the
-- error values of the operating system are left to the parameters. Of the examples, the parsing of
-- flags is left out. cgo.go, linking_dynamic.go, linking_static.go and lxc_test.go have no
-- behaviour of the package.
pub mod Base
pub mod Errors
pub mod Examples
pub mod Exec
pub mod Types
pub mod Liblxc
pub mod Memory
pub mod Binding
pub mod Container
pub mod Options
pub mod Floats
pub mod Global
pub mod Locking
pub mod Tests
