-- ===== src/Lib.antt =====
-- The CUPP plugin for strongSwan, in plugin/src/: it gives each VPN user a virtual IPv4 address, a
-- fixed one from a policy file or one from a dynamic pool, and takes it back when the user leaves.
--
-- charon asks the IP allocator for an address (`acquire_address`). The allocator takes the user's name
-- from the identity manager, looks for the user's lease in the session manager, and for a new lease
-- asks the policy engine for a fixed address and then the dynamic pool. The policy engine holds a
-- snapshot, a fixed pool and two end points, that the YAML loader fills from the policy file.
--
-- Base is shared notation: Boolean tests, lists, names as C strings without their zero, and `Run`, a
-- result or the memory fault that the C code would commit.
-- Host is `host_t` as a parameter, and the conversions of plugin/src/dynamic_pool.c.
-- Hashtable is `hashtable_t` as an interface with its documented laws, and the key functions of
-- plugin/src/session_manager.c and plugin/src/fixed_pool.c; Hashtable/Assoc implements it by lists.
-- Env collects these parameters.
-- DynamicPool is plugin/src/dynamic_pool.c. The bitmap is the list of the allocated bytes, so an index
-- outside it is a fault. The loop of `acquire` is `scan`, with as many rounds as the capacity.
-- AddressPool is plugin/src/dynamic_pool.h: the methods of a pool and what it promises of them, and in
-- AddressPool/Calls what a client of any such pool sees. DynamicPool/Keeps fills it.
-- SessionManager is plugin/src/session_manager.c. Leases live on a heap from pointers to structures,
-- `malloc` gives a pointer never given before, and a read of a freed lease is a fault.
-- SessionManager/Contract is what plugin/src/session_manager.h says of the leases of users, and
-- SessionManager/Refines compares the two.
-- FixedPool, YamlLoader, PolicyEngine and IdentityManager are the files fixed_pool.c, yaml_loader.c,
-- policy_engine.c and identity_manager.c of plugin/src/.
-- IpAllocator is plugin/src/ip_allocator.c; IpAllocator/Lifecycle is its constructor and destructor.
-- EventListener is plugin/src/event_listener.c.
-- History is the calls of the allocator as a step relation, with the abstract table of leases that they
-- refine in History/Table. An acquisition is a step if it has memory for the lease, and if its unique
-- id is not that of another user's lease, as charon gives each IKE_SA its own.
-- Plugin is plugin/src/plugin.c; Plugin/System is its threads, a step relation on the plugin's memory,
-- the loader's reference, what charon has registered and the numbers of sweep jobs at each point of
-- `sweep_cb`. The loader, as strongSwan's does, unloads the plugin's feature, which calls `plugin_cb`,
-- before it destroys the plugin. Who calls the provider or the listener needs only that charon has
-- it registered; a use of the plugin after it was freed is a fault. The number of references stays
-- below 2 ^ 31.
-- Storage is the memory: which blocks are allocated. Storage/Fixed, Storage/Loader, Storage/Engine and
-- Storage/Pool are fixed_pool.c, yaml_loader.c, policy_engine.c and dynamic_pool.c of plugin/src/ again,
-- for what each operation allocates and frees: a structure is the address of its block and its
-- pointers, and to free a block that is not allocated is a fault. Allocations that the code does not
-- test succeed, and what the library allocates for itself inside a table is not counted. What `put`
-- does with the key of a pair that it finds is a parameter, `put_replaces_key`. Storage/Loader/Given
-- is what a policy file gives to each user and to the pool, read off its events.
-- Examples holds a concrete environment and the theorems at concrete inputs.
--
-- An operation is a function from its arguments and the state to its result and the new state, named
-- as in C. Where the code tests an allocation or reads the clock, the outcome is an argument. A pointer
-- that may be NULL is an option. Numbers are natural numbers; 32-bit sums are taken modulo 2 ^ 32 where
-- the code can exceed it. Each operation is one step, as the mutexes make it. Outside Storage, copies
-- of hosts and strings are values.
--
-- Not modelled: the log; the name and the features of the plugin, which are constants; strongSwan and
-- libyaml, which are parameters; and interleavings inside an operation of the allocator, so a sweep is
-- one step. Only IpAllocator/Interrupted looks at what comes in between the two loops of a sweep.
pub mod AddressPool
pub mod Base
pub mod DynamicPool
pub mod Env
pub mod EventListener
pub mod Examples
pub mod FixedPool
pub mod Hashtable
pub mod History
pub mod Host
pub mod IdentityManager
pub mod IpAllocator
pub mod Plugin
pub mod PolicyEngine
pub mod SessionManager
pub mod Storage
pub mod YamlLoader
