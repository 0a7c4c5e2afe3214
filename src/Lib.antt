-- ===== src/Lib.antt =====
-- The vLLM connector of SemBlend: a KV connector that serves the KV of earlier requests ("donors") to
-- later ones. vLLM's scheduler asks it at admission how many tokens it can supply, tells it which
-- blocks it allocated, and collects once per step what the worker has to load and to store.
--
-- Parts, with the files of the repository under src/semblend_vllm_connector/:
-- - Types: types.py. Config: config.py, the settings that decide something.
-- - Journal: connector.py, the counters and the audit rows' names and join keys.
-- - Span: semantic_span.py. `block_align_spans` snaps spans of donor KV to block edges,
--   `supply_at_boundary` and `chain_at_boundary` read a stretch from one donor or several.
--   Its proofs are in Span/Align, Supply, Chain, Trim and Identity.
-- - Scheduler: the state that connector.py's `SemBlendVllmConnector` keeps in the scheduler role.
-- - Plan, SpanPlan, PrefixPlan, Match: connector.py, `get_num_new_matched_tokens` and its branches.
-- - SegmentPlan: `get_num_new_matched_tokens_mid_prefill` and `get_prefill_compute_limit`.
-- - Alloc: `update_state_after_alloc`. Fills: the passes over blocks a load filled.
-- - Capture, Stores: `_advance_capture` and `_build_store_metadata`.
-- - Registration: `_register_donor_on_finish` and the donors held until their capture is readable.
-- - Step: `build_connector_meta`, `request_finished`, `on_new_request`.
-- - Slots: `_slot_mapping` and `_destination_block_ids`.
-- - Provider: provider.py, candidate ranking and the local provider.
-- - Semblend: providers/semblend.py, the adapter of the SemBlend pipeline: aligned positions grouped
--   into segments, the answer to a lookup and the diagnostics of a miss.
-- - Writer: capture_writer.py, the queue, its thread, its submitters and its close, as steps.
-- - Worker: the state of connector.py's worker role, with the donor store on both tiers.
-- - Load: `start_load_kv`. Staging and Save: `save_kv_layer` and what stands between a captured
--   layer and the writer. Publish: the writer's jobs, `_write_captured_layer` and
--   `_write_donor_metadata`. Flush: `wait_for_save`, `get_finished` and the worker's `shutdown`.
-- - Prelude: shared names, tests, lists, dictionaries and rounding. Tests: concrete inputs.
--
-- How they interact: the match hook memoizes a load plan, the allocation hook turns it into a pending
-- load, the step hands the pending loads and the stores to the worker, and a finished request is
-- registered as a donor once the record of its capture is in the store. A hook is a function from the
-- scheduler's state to an answer and the next state. The provider, the tokenizer, the donor store, the
-- block pool and the digests are arguments: fields of `Engine`, `WorkerEngine`, `Pipeline`,
-- `Request` and `BlockPool`.
--
-- Numbers are natural numbers: token ids, positions, counts and block ids are not negative in the
-- source, and Python's integers do not overflow. Where the source subtracts and compares with 0, the
-- subtraction that stops at 0 gives the same test. Floats of the settings are fractions.
-- The loop of `chain_at_boundary` runs on fuel, one round more than there are runs, which is enough
-- because each round ends at the end of another run. The writer's `run` has fuel too: two steps for
-- each queued job and one for the job in hand. The other loops are structural recursions.
--
-- In the worker a tensor is a list of rows, one for each token, and a layer of the paged cache a
-- function from slots to rows. Writer takes the threads apart, with every interleaving of their steps;
-- Publish and Flush run the queue, first to last, where the hook joins the writer.
-- What the store answers to each write and removal is an argument (`StoreReplies`).
--
-- Not modelled: the layouts, the splitting and the rotation of tensors, the side stream of a copy, the
-- check of vLLM's configuration, the reading of the settings, the tokenizer, the namespaces' digests,
-- what a capture costs, log lines and the further fields of audit rows.
pub mod Prelude
pub mod Types
pub mod Span
pub mod Journal
pub mod Config
pub mod Scheduler
pub mod Plan
pub mod SpanPlan
pub mod SegmentPlan
pub mod PrefixPlan
pub mod Match
pub mod Fills
pub mod Slots
pub mod Writer
pub mod Worker
pub mod Load
pub mod Staging
pub mod Save
pub mod Publish
pub mod Flush
pub mod Alloc
pub mod Registration
pub mod Capture
pub mod Stores
pub mod Step
pub mod Provider
pub mod Semblend
pub mod Tests
