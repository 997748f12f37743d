-- ===== src/Btree/Inner/Insertion.antt =====
-- `page_insert_inner` at both places where a child can go.
use wednesday.Blob.{Blob}
