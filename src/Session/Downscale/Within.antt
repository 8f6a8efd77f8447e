-- ===== src/Session/Downscale/Within.antt =====
-- The averages of a picture that is made smaller.
