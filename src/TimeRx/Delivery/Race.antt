-- ===== src/TimeRx/Delivery/Race.antt =====
-- What the last call of a run returns if the main thread resets the buffers before it does.
