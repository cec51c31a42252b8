-- ===== src/Lib.antt =====
-- macos-vm-memory-ratchet: experiments on macOS that show when a virtual machine monitor can
-- give guest memory back to the host. crates/hv-reclaim runs tiny guests on
-- Hypervisor.framework, reclaims their RAM and probes whether live data survives memory
-- pressure; crates/ledger holds what the experiments share; crates/pressure-discard and
-- crates/calibrate-madvise are host-only controls; crates/vz-ratchet asks the same of
-- Virtualization.framework.
--
-- Which file models what, and how it corresponds:
-- - Prelude: the library names that the modules share; Result is what a Rust call comes to (a
--   value, a panic, or a model loop without fuel), Run a computation over a state.
-- - Ledger: Pages has the page loops `for off in (lo..hi).step_by(PAGE)` of every crate, a
--   buffer being the word at each offset; Canary is crates/ledger/src/canary.rs, Reading is
--   lib.rs beside it and Pressure pressure.rs.
-- - Guest: crates/hv-reclaim/src/guest.rs and hvf.rs. Isa decodes and executes the A64
--   instructions that the programs use; Programs has their machine code word by word and
--   write_code_page, CodePage what the page holds then; Turns, CounterTurns, Loop, Passes and
--   Hammer follow one round, a loop, a pass and a sweep of the machine code; Hypervisor is the
--   framework, a parameter with its documented laws, of which hv_vcpu_run may be canceled at any
--   instruction but not for ever; Host has the host loops (run_to_doorbell, run_pass,
--   run_*_range, run_hammer), Rings, Enter, Correct and HammerCorrect what they return. Bench is
--   a hypervisor that meets the laws.
-- - Reclaim: `reclaim` of main.rs, `reclaim_extents` of timing.rs, `reclaim` of soak.rs and the
--   stop loop of fleet_sim.rs, as traces of system calls that a kernel answers. Stage2 reads the
--   guest's mapping off a trace and says when memory was handed to the kernel in reach of the
--   guest: it is handed to the kernel when it is advised by madvise or unmapped from the host.
--   What the kernel then releases, for instance nothing of what the guest has dirtied and still
--   reaches, is not modelled.
-- - Soak: crates/hv-reclaim/src/soak.rs: the slots, the worker with its counters, the self-test,
--   and the verdict (Shared). Crew has all workers at once: its Act is what a worker does
--   between two points at which another may run, Script shows that a worker is its acts in turn,
--   Acts, Hot, Cold and Each what an act does, Frame, Safe and Whole follow the turns of all on
--   one guest RAM, and Ending is `run` from the slots to the verdict. Bursts is the thread that
--   turns the pressure on and off.
-- - Probes: the surveys of `parked_pressure_check` and `hammer_check`, the latter's callback,
--   and the whole of it behind a touch pass (EndToEnd).
-- - Session: a run of hv-reclaim as main.rs, timing.rs and fleet_sim.rs make it: the calls that
--   it makes, oldest last, on a system that answers each. Rules says which VM is there, which
--   host memory is held and what a guest address leads to after a history, and which call is
--   allowed then; Bring, Reclaims, Canary (the probes), Modes and Whole follow `main` from its
--   options on. Cell is `run_cell` of alloc_shape.rs in the same terms, and Process is `main`
--   from its first line: a pressure child, a cell, or a run.
-- - AllocShape: the rest of crates/hv-reclaim/src/alloc_shape.rs: Spec is the text that names a
--   cell, Collect the loops that start the children and read the line of each, Matrix the table.
-- - Options: the command lines of crates/hv-reclaim/src/main.rs and
--   crates/vz-ratchet/src/main.rs.
-- - Discard: the buffers of crates/pressure-discard/src/main.rs and of
--   crates/calibrate-madvise/src/main.rs; Host is the process they run in, with what the system
--   answers as a parameter, Laws what is relied on of it; Control is `main` of the first, Armed,
--   Counting and Discarded follow it; Calibrate is `main` of the second and Measured follows it.
-- - Wire: the functions on text that the lines between host and guest are read with.
-- - Agent: the agent guest-init/src/main.rs. The module itself is the server of commands; Lines
--   reads a line and writes a reply, Requests has the lines that vz-ratchet sends, Loop the loop
--   over the console, Boot what comes before it; MemInfo is `mem_available_kib`, Child
--   `fleet_child`; Fleet has the commands of crates/vz-ratchet/src/fleet.rs.
-- - Ratchet: the sessions of crates/vz-ratchet/src (main.rs, fleet.rs, harness.rs), whose clock
--   moves by what they wait and sleep, with a harness that is a parameter: the lines that come
--   in after each line sent. Pids and Helper are `running_helpers` and `find_new_helper` of
--   helper.rs, Sampler its `sample` and the thread of fleet.rs that takes one each second,
--   Traced `run` of fleet.rs with that thread.
-- How they interact: Soak runs the passes of Guest and the sequences of Reclaim on one guest
-- RAM; Session runs the sequences of Reclaim in its history, where a pass of Guest is one event;
-- Probes and Options are read off main.rs; AllocShape shares the calls of Reclaim; Ratchet sends
-- the lines that Agent reads, and starts the generator of Ledger.
--
-- Words and counters are native numbers with their wrap-around written out, % 2 ^ 64. Offsets
-- and sizes are usize values; a product or shift that the source computes on them wraps the same
-- way.
-- Fuel: a pass or a hammer run takes the number of entries of the vCPU it may use. The theorems
-- say how many are enough: one more than the longest row of canceled runs, per pass or per
-- sweep; `limit` bounds the instructions between two faults, and seven for each page and three
-- more are enough. The watch of the balloon takes 31 rounds: each sleeps a second, and its
-- deadline is 30 seconds off. The search for the helper takes two polls more than its timeout
-- has quarters of a second. The sampler takes a poll more than its run has seconds, a wait of
-- the pressure thread 101 polls for its twenty seconds.
-- Not modelled: the ledger's mib, delta_mib and row, which are floats and printing; the start of
-- the Swift harness in crates/vz-ratchet with the thread that reads its lines, and the MARK
-- lines of a fleet run; clocks where no deadline hangs on them, and progress lines. In a run of
-- hv-reclaim the matrix, a pass of the guest, all workers of the soak and the start or the end
-- of a pressure child are one event each. The pressure of hammer_check, which its callback in
-- Probes times, starts before its pass there and ends behind it, and that of the soak comes
-- behind its workers, as many children as the system lets it start. A worker of Soak alone has
-- guest RAM and the mapping to itself; in Soak/Crew the workers share them, but act one at a
-- time: a pass of one guest is not interleaved with that of another. That memory keeps what the
-- guest writes is an assumption of the soak's and the hammer's models, broken only by reclaims.
pub mod Prelude
pub mod Guest
pub mod Ledger
pub mod Discard
pub mod Probes
pub mod Options
pub mod AllocShape
pub mod Soak
pub mod Session
pub mod Ratchet
pub mod Wire
pub mod Reclaim
pub mod Agent
