-- ===== src/JobQueue/Queue/Printed.antt =====
-- What is printed of a text that was read into a job.
