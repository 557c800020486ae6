-- ===== src/Kmalloc/Reuse.antt =====
-- kernel/kmalloc.c: a slot that is handed out again still carries the poison of its last free.

