-- ===== src/Graph/Executor/Buildable.antt =====
-- graph/executor.py, `build_node_definition`, on a workflow that compiled.
