-- ===== src/Status.antt =====
-- include/mcmp/stat.h: the states that the API's functions return.

-- `mcmpst`; the negative code of each state is its constructor here.
pub data Status : Type 0 where
  success not_implemented overflow out_of_mem specific not_abspath invalign noinitz : Status
  isempty ovtimeout critical invop alrop noavle ambnop retryop : Status
