-- ===== src/Lib.antt =====
-- The network switch simulator of the repository, simulator/src, and the tool that sizes its
-- buffers: their components as functions on explicit state, and what they guarantee.
--
-- A packet enters the switch as 512-bit words. The receive engine of its input port reads the header
-- from the first word; the address lookup finds the output port; the buffer keeps the packet in the
-- queue of its input and output port; the scheduler matches input with output ports and takes the
-- packets of its matches from the queues; the output ports send them.
--
-- Files, and what they model:
--   Config, Config/Latency      simulator/src/config.py: `SwitchConfig.get_voq_size`,
--                               `validate_voq_sizes`, the expansion of sizes in `load_config`,
--                               `LatencyEstimator`, transfer cycles
--   Packet                      simulator/src/packet.py: `Metadata`, `AxisWord`, `Packet`,
--                               `from_trace_entry`
--   Voq/Entry, Voq/Shared,      simulator/src/buffer_voq.py: `VOQEntry`, `OneBufferPerPortBuffer`,
--   Voq/Pairs                   `NBuffersPerPortBuffer`
--   Voq/Interface               what the schedulers use of a buffer, which both buffers fill
--   Scheduler, Scheduler/*      simulator/src/scheduler_base.py: `BaseScheduler` (Scheduler),
--                               `RoundRobinScheduler`, `EDRRMScheduler`, `iSLIPScheduler`
--   Rx                          simulator/src/rx_engine.py: `RxEngine`
--   Hash, Hash/FullLookup,      simulator/src/hash_engine.py: `FullLookupTable`, `MultiBankHash`
--   Hash/MultiBank
--   Hash/Engine, Rx/Ports,      `HashEngine`, `RxEngineWrapper`, and the scheduler that
--   Scheduler/Choice            `create_scheduler` chooses
--   Pipeline                    simulator/src/pipeline_common.py: `TransferState`,
--                               `PipelineStageState`
--   Pipeline/Stage              simulator/src/switch_core.py: `ModulePipelineState`
--   Switch, Switch/*            simulator/src/switch_core.py: `SwitchCore`: its stages (RxStage,
--                               HashStage with the buffer's stage, SchedulerStage, OutputStage), its
--                               state (Core), `process_cycle` (Cycle), `has_pending_work` (Pending)
--   Network                     simulator/src/simulation.py: `_build_routing_for_switch`,
--                               `_reconstruct_path`; simulator/src/packet.py: `NetworkTopology`
--   Dse                         tools/dse_scanning_graph/dse_scanner.py: `next_power_of_2`,
--                               `compute_optimized_voq_sizes`
-- The modules below these hold proofs and are named for what they prove; Base holds what all share,
-- and Tests the examples. A definition has the name of its method in the source.
--
-- How the source is written here:
--   - a method takes the state and returns the new one beside its result; an exception is `none`.
--     Times are whole numbers of some unit. Objects are passed by value;
--   - a list with a cell for each port is a function of the port, and a pair of ports gives a queue.
--     Operations test the subscripts that they are given; `dst_port` may be negative, and then counts
--     from the end as in Python (`py_index`);
--   - sets are lists, dictionaries are association lists;
--   - loops over the ports are recursion on the rounds that are left or on a list of ports, and take
--     as many rounds as there are ports, as in the source; the search for routes has as many rounds as
--     the links have ends, and one more;
--   - numbers that the source never makes negative are natural numbers; sizes and limits from the
--     configuration file are integers. Python's numbers do not wrap around.
--
-- Not modelled: the event loop of simulator/src/simulation.py, file input and output (YAML, CSV,
-- JSON), logging, statistics that are ratios of floating-point numbers, the latency of the
-- schedulers, which is a regression on floating-point numbers, the counter
-- `accumulated_latency_cycles` of a waiting packet, which nothing reads, and the scripts under tools
-- and simulator/tools that run the simulator and write reports.
pub mod Base
pub mod Config
pub mod Packet
pub mod Voq
pub mod Scheduler
pub mod Rx
pub mod Hash
pub mod Pipeline
pub mod Switch
pub mod Network
pub mod Dse
pub mod Tests
