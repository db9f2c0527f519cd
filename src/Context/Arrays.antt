-- ===== src/Context/Arrays.antt =====
-- The items of an array object, after one was appended.
