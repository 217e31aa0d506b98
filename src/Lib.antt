-- ===== src/Lib.antt =====
-- DeltaServe runs finetuning next to inference on one vLLM engine: every step may carry finetuning samples
-- as extra prefills, the activations of these rows are saved in a buffer of fixed capacity, and when the
-- buffer cannot grow a backward pass in a child process consumes it. This library models the control side
-- of the plugin, deltaserve-plugin/deltaserve.
--
-- The parts, and how they interact:
--   Store        finetuning_store.py, FinetuningStore: the corpus by sample, a pool of selectable samples
--                in buckets by length, the samples that are claimed by a step in flight, and the epochs.
--                Dictionaries are association lists in order of insertion (Common.Dict), `bisect` and the
--                sorted key list are Common.Sorted, a sample is named by the number of its request.
--   Coordinator  coordinator.py, FinetuneCoordinator: rows saved and reserved in the activation buffer, the
--                admission gate and its writers (flush, throttle, trigger, stop), the backward and its
--                ack, and the command and ack that cross to the worker under tensor parallelism.
--   Estimator    estimator.py: step composition and regimes, the fitted formula and its fallbacks, the
--                fit from recorded steps, and the tracker (Estimator.Tracker) that records them.
--   Admission    ft_scheduler.py, _current_step_features and admit_ft_to_step: what the coming step holds
--                and how many samples may ride on it, from the store, the coordinator and the estimator.
--   Scheduler    ft_scheduler.py, _schedule_step from the admission snapshot on, _rollback_ft_step,
--                update_from_output, _apply_relay and has_requests; schedule with the input queue of
--                engine_core.py (Scheduler.Tiers), the features of a realized step (Scheduler.Realized), and
--                the requests of ft_injector.py (Scheduler.Injector).
--   Abort        coordinator.py, FtAbortPoller: the collective decision of the ranks of a tensor-parallel
--                group to abandon a finetuning-only forward.
--   Profiling    profiling_batch_generator.py: partitions of token totals and the co-serving batches.
--   Backward     bwd_services/base.py and backward_process.py: the backward child. Its command loop and its
--                cycles (Backward.Child), the pipe to the engine (Backward.Link), the pause at layer
--                boundaries for an inference prefill (Backward.Pause) and the bound on how far the CPU runs
--                ahead of the GPU (Backward.RunAhead).
--   Runner       model_runner.py: when the GPU is taken from the backward child and given back, and how
--                the ranks of a group hand over a finished backward (Runner.Relay).
--   Capture      model_runner.py, _build_finetune_mask, with accumulate.py and ft_save_op.py: the finetuning
--                rows of a batch, and the two ways of copying them to the activation buffers.
--   Parallel     bwd_services/common/tp.py: the shards of the adapters' factors (Parallel.Shard), and the flat
--                buffer of the gradients that are reduced in groups (Parallel.Bucket).
--   Config       config_loader.py: the settings of the sections, merged and looked up.
--   Common       helpers: tests and lists over the native numbers, dictionaries, sorted key lists.
-- Each of these files holds the definitions; the modules under it hold the theorems, and its Tests concrete
-- runs.
--
-- State is a record, and an operation is a function from the record and its arguments to the new record and
-- what it returns. Calls of the child process are appended to the field `sent`. Time is an argument in
-- whole milliseconds, rates are per 1000 seconds, and factors of the configuration are thousandths, so the
-- comparisons of floats are comparisons of whole numbers. A number that the source may take below zero is
-- cut off at zero where the source does so too or only tests its sign. Interleavings are sequences of calls:
-- Coordinator.Steps and Coordinator.Writes are step relations with the steps in flight as their index.
--
-- Parameters stand for what is not in the repository: the tokenizer, `str.strip`, the drawn ids and the
-- lines of the corpus file (Store.load), the floats and numpy's least squares (Estimator), what vLLM's own
-- scheduler schedules and its engine does with a request (Scheduler). Their hypotheses are named: ids
-- are distinct, a solver returns one coefficient per column, zero and one are neutral. Two parameters stand
-- for code of the repository: `predict` in Admission, which the theorem on an admission instantiates with the
-- estimator's own prediction (Admission.predicted), and the hooks of a model's backward with its hashes and
-- sums (Backward.Child.Host), which are bwd_services' tensor mathematics; a backward may write the served
-- adapters and the tensors of its own, and that the program's trainers do so is not shown.
--
-- The greedy loop of admission is on fuel: each round admits a sample of one token or more, so its fuel is one
-- round per token of the cap and one more. So is the packing loop of the injector, with a round per token of
-- the budget, and the groups of the gradient buffer, with a round per layer. The waits of the backward child
-- are over the readings that the other processes provide, and end with them or before.
--
-- Not modelled: the trainers, graphs and tensor kernels (bwd_services but for base.py and common/tp.py,
-- cudagraph.py), the collectives, streams and clipping of tp.py, the module discovery and buffer allocation
-- of accumulate.py, the timing ring, the other relay fields and the abort path of model_runner.py, the profiling pass of
-- engine_core.py, the fixed shapes of profiling_batch_generator.py, and files, logs, traces and glue. They
-- are tensor mathematics on the GPU, input and output, or objects of vLLM.
pub mod Common
pub mod Store
pub mod Estimator
pub mod Coordinator
pub mod Admission
pub mod Scheduler
pub mod Abort
pub mod Profiling
pub mod Backward
pub mod Parallel
pub mod Capture
pub mod Runner
pub mod Config
