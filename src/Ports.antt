-- ===== src/Ports.antt =====
-- port_prediction.c: the predictor, without its probes.
pub mod Predictor
pub mod Progression
