-- ===== src/Freeze/Complete.antt =====
-- A freeze with nothing wrong is loaded by `load_current_freeze` of src/freeze.py.
