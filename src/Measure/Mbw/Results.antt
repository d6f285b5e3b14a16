-- ===== src/Measure/Mbw/Results.antt =====
-- performance/multi-node/rdm_mbw_mr.c: what stands in `bandwidth_results`.
