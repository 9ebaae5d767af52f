-- ===== src/Storage/Error.antt =====
-- storage/storage.go: the errors that an adapter reports.
pub data AdapterError : Type 0 where
  not_found : AdapterError
  unique_violation : AdapterError
  unknown_field : AdapterError
  failed : AdapterError
