-- ===== src/Lifecycle/BridgeMounts/Lost.antt =====
-- A mount whose target is gone (operator/gefyra/handler/bridge_mounts.py).
